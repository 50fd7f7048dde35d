-- ===== src/Attr.antt =====
-- src/attr.rs: extended attributes, and changes of mode, owner and times.
pub mod Body
pub mod Chmod
pub mod Xattr
pub mod Chown
use dbfs.Prelude.{
  ℕ, Bytes, Option, none, some, Bool, true, false, not, ◌&&◌, ◌||◌, bit_and, bit_or, ◌==◌,
  if◌then◌else◌,
}
use dbfs.Prelude.Res
use dbfs.Common.Error.{access_error, permission_denied, other}
use dbfs.Common.Permission.{
  contains, remove, from_bits_truncate, s_ixusr, s_ixgrp, s_ixoth, s_isuid, s_isgid,
}
use dbfs.Common.Time.{DbfsTimeSpec}
use dbfs.Common.Attr.{DbfsAttr}
use dbfs.Access.{checkout_access, access_w_ok, clear_suid_sgid}
use dbfs.Kv.{Kv}
use dbfs.Store.Tx.{Fs, write_tx_unwrap, dropped_tx_unwrap}
use dbfs.Store.Fs.{pure, lift, or_err, ◌>>=◌, ◌>>◌}
use dbfs.Inode.{dbfs_common_attr}
use dbfs.Attr.Body.{
  setxattr_body, getxattr_body, removexattr_body, chmod_body, chown_body, utimens_body,
}

-- The type bits of the old mode with the permission bits of the new one.
unfoldable pub chmod_mode : ℕ → ℕ → ℕ
chmod_mode perm mode = bit_or (bit_and perm 0o170000) (bit_and mode 0o777)

-- A caller other than root may give a file only to a group that it is in, may not change the owner,
-- and changes the group only of its own files.
unfoldable pub chown_allowed : ℕ → ℕ → Option ℕ → Option ℕ → ℕ → Bool
chown_allowed r_uid r_gid uid gid owner =
    elim gid [ none ↦ true | some g ↦ (r_uid == 0) || (r_gid == g) ]
    && elim uid [ none ↦ true | some u ↦ (r_uid == 0) || ((u == owner) && (r_uid == owner)) ]
    && elim gid [ none ↦ true | some g ↦ (r_uid == 0) || (r_uid == owner) ]

abbrev removed_if : Option ℕ → ℕ → ℕ → ℕ
removed_if none flag perm = perm
removed_if (some n) flag perm = remove perm flag

-- The mode after a change of owner: an executable file loses the set-id bits.
unfoldable pub chown_mode : Option ℕ → Option ℕ → ℕ → ℕ
chown_mode uid gid bits =
    let perm = from_bits_truncate bits in
    let cleared =
      if contains perm s_ixusr || contains perm s_ixgrp || contains perm s_ixoth
      then clear_suid_sgid perm
      else perm in
    removed_if gid s_isgid (removed_if uid s_isuid cleared)

abbrev or_old : {A : Type 0} → Option A → A → A
or_old none a = a
or_old (some b) a = b

module _ (K : Kv) where
  open K use {Db}

  unfoldable pub dbfs_common_setxattr : ℕ → ℕ → ℕ → Bytes → Bytes → DbfsTimeSpec → Fs Db (Unit {0})
  dbfs_common_setxattr r_uid r_gid ino key value ctime =
      write_tx_unwrap K (setxattr_body K r_uid r_gid ino key value ctime)

  unfoldable pub dbfs_common_getxattr : ℕ → ℕ → ℕ → Bytes → Bytes → Fs Db (ℕ × Bytes)
  dbfs_common_getxattr r_uid r_gid ino key buf =
      dropped_tx_unwrap K false (getxattr_body K r_uid r_gid ino key buf)

  -- The transaction is not committed.
  unfoldable pub dbfs_common_removexattr : ℕ → ℕ → ℕ → Bytes → DbfsTimeSpec → Fs Db (Unit {0})
  dbfs_common_removexattr r_uid r_gid ino key ctime =
      dropped_tx_unwrap K true (removexattr_body K r_uid r_gid ino key ctime)

  -- `if i_mode != attr.perm { … }`
  abbrev change_mode : ℕ → ℕ → DbfsTimeSpec → DbfsAttr → Fs Db DbfsAttr
  change_mode ino i_mode ctime attr = if i_mode == attr.perm then pure attr else (do
    write_tx_unwrap K (chmod_body K ino i_mode ctime)
    pure (record attr { perm = i_mode; ctime = ctime }))

  unfoldable pub dbfs_common_chmod : ℕ → ℕ → ℕ → ℕ → DbfsTimeSpec → Fs Db DbfsAttr
  dbfs_common_chmod r_uid r_gid ino mode ctime = do
    attr ← or_err other (dbfs_common_attr K ino)
    lift (Res.guard ((r_uid == 0) || (r_uid == attr.uid)) permission_denied)
    lift (Res.guard ((r_uid == 0) || (r_gid == attr.gid)) permission_denied)
    change_mode ino (chmod_mode attr.perm mode) ctime attr

  unfoldable pub dbfs_common_chown : ℕ → ℕ → ℕ → Option ℕ → Option ℕ → DbfsTimeSpec → Fs Db DbfsAttr
  dbfs_common_chown r_uid r_gid ino uid gid c_time = do
    attr ← or_err other (dbfs_common_attr K ino)
    lift (Res.guard (chown_allowed r_uid r_gid uid gid attr.uid) permission_denied)
    let perm = chown_mode uid gid attr.perm
    write_tx_unwrap K (chown_body K ino (or_old uid attr.uid) (or_old gid attr.gid) perm c_time)
    pure (record attr {
      uid = or_old uid attr.uid;
      gid = or_old gid attr.gid;
      perm = perm;
      ctime = c_time;
    })

  unfoldable pub dbfs_common_utimens :
      ℕ → ℕ → ℕ → Option DbfsTimeSpec → Option DbfsTimeSpec → DbfsTimeSpec → Fs Db DbfsAttr
  dbfs_common_utimens r_uid r_gid ino atime mtime c_time = do
    attr ← dbfs_common_attr K ino
    lift (Res.guard ((attr.uid == r_uid) || (attr.uid == 0)) permission_denied)
    lift (
        Res.guard
          ((attr.uid == r_uid)
            || checkout_access attr.uid attr.gid (bit_and attr.perm 0o777) r_uid r_gid access_w_ok)
          access_error)
    write_tx_unwrap K (utimens_body K ino atime mtime c_time)
    pure (record attr {
      atime = or_old atime attr.atime;
      mtime = or_old mtime attr.mtime;
      ctime = c_time;
    })
