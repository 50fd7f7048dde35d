-- ===== src/Access.antt =====
-- Who may do what: `checkout_access` and `creation_gid` of src/inode.rs, and `clear_suid_sgid`,
-- `parse_xattr_namespace` and `xattr_access_check` of src/attr.rs.
pub mod Spec
pub mod Posix
pub mod SetId
use dbfs.Prelude.{
  ℕ, ◌-◌, ◌/◌, ◌%◌, ◌^◌, Bool, true, false, not, ◌&&◌, ◌||◌, bit_and, List, [], ◌∷◌, Bytes, codes,
  ◌==◌, same, if◌then◌else◌,
}
use dbfs.Prelude.Res.{Res, ok, err, ◌>>=◌, guard}
use dbfs.Common.Error.{DbfsResult, permission_denied, not_supported}
use dbfs.Common.Permission.{contains, remove, s_isuid, s_isgid, s_ixgrp}

abbrev pub access_r_ok : ℕ
access_r_ok = 4

abbrev pub access_w_ok : ℕ
access_w_ok = 2

-- `mask -= mask & bits`
abbrev pub drop_granted : ℕ → ℕ → ℕ
drop_granted mask bits = mask - bit_and mask bits

-- The caller `uid`, `gid` asks for `access_mask` at an inode of `p_uid`, `p_gid` and `mode`.
unfoldable pub checkout_access : ℕ → ℕ → ℕ → ℕ → ℕ → ℕ → Bool
checkout_access p_uid p_gid mode uid gid access_mask =
    if access_mask == 0
    then true
    else if uid == 0
    then (let m0 = bit_and access_mask 0o1 in
        let m1 = drop_granted m0 (mode / 2 ^ 6) in
        let m2 = drop_granted m1 (mode / 2 ^ 3) in let m3 = drop_granted m2 mode in m3 == 0)
    else if p_uid == uid
    then drop_granted access_mask (mode / 2 ^ 6) == 0
    else if p_gid == gid
    then drop_granted access_mask (mode / 2 ^ 3) == 0
    else drop_granted access_mask mode == 0

-- The group of a new inode.
unfoldable pub creation_gid : ℕ → ℕ → ℕ → ℕ
creation_gid p_gid p_mode gid = if contains p_mode s_isgid then p_gid else gid

unfoldable pub clear_suid_sgid : ℕ → ℕ
unfolding contains remove
clear_suid_sgid perm =
    let perm' = remove perm s_isuid in
    if contains perm' s_ixgrp then remove perm' s_isgid else perm'

pub data XattrNamespace : Type 0 where
  security system trusted user : XattrNamespace

-- `str::starts_with`
unfoldable pub starts_with : Bytes → Bytes → Bool
starts_with key [] = true
starts_with [] (c ∷ cs) = false
starts_with (k ∷ ks) (c ∷ cs) = (k == c) && starts_with ks cs

unfoldable pub parse_xattr_namespace : Bytes → DbfsResult XattrNamespace
unfolding starts_with
parse_xattr_namespace key =
    if starts_with key (codes "user.")
    then ok user
    else if starts_with key (codes "system.")
    then ok system
    else if starts_with key (codes "trusted.")
    then ok trusted
    else if starts_with key (codes "security.")
    then ok security
    else err not_supported

-- The rule of each namespace.
unfoldable pub namespace_check :
    XattrNamespace → Bytes → ℕ → ℕ → ℕ → ℕ → ℕ → ℕ → DbfsResult (Unit {0})
namespace_check security key access_mask r_uid r_gid uid gid mode =
    guard (not (not (access_mask == access_r_ok) && not (r_uid == 0))) permission_denied
namespace_check trusted key access_mask r_uid r_gid uid gid mode =
    guard (r_uid == 0) permission_denied
namespace_check system key access_mask r_uid r_gid uid gid mode =
    if same key (codes "system.posix_acl_access")
    then guard (checkout_access uid gid mode r_uid r_gid access_mask) permission_denied
    else guard (r_uid == 0) permission_denied
namespace_check user key access_mask r_uid r_gid uid gid mode =
    guard (checkout_access uid gid mode r_uid r_gid access_mask) permission_denied

unfoldable pub xattr_access_check : Bytes → ℕ → ℕ → ℕ → ℕ → ℕ → ℕ → DbfsResult (Unit {0})
unfolding namespace_check parse_xattr_namespace
xattr_access_check key access_mask r_uid r_gid uid gid mode = do
  namespace ← parse_xattr_namespace key
  namespace_check namespace key access_mask r_uid r_gid uid gid mode
