-- ===== src/Inode/Create/Mode.antt =====
-- The mode and the group that `dbfs_common_create` gives a regular file, by the digits of its
-- permission word.
use dbfs.Prelude.{
  ℕ, ◌+◌, ◌/◌, ◌%◌, ◌^◌, ◌<◌, ◌≡◌, refl, Bool, true, false, not, ◌&&◌, Option, none, Bytes, arith,
  ◌==◌, ==_iff, if◌then◌else◌,
}
use dbfs.Prelude.Bits.{every_below, every_below-at}
use dbfs.Prelude.Res.{ok}
use dbfs.Common.Permission.{
  contains, remove, s_ifdir, s_iflnk, s_ifsock, s_ifchr, s_ifblk, s_ififo, s_ifreg, s_isuid,
  s_isgid,
}
use dbfs.Access.{creation_gid}
use dbfs.Inode.Body.Create.{created_mode, created_shape}

-- A regular file with the twelve bits that were asked for; for a caller other than root without the
-- two set-id bits.
abbrev pub regular_mode : ℕ → ℕ → ℕ
regular_mode uid rest = 0o100000 + (if uid == 0 then rest else rest % 1024)

-- The directory's group where the set-group-id bit was asked for.
abbrev pub regular_gid : ℕ → ℕ → ℕ → ℕ
regular_gid p_gid rest gid = if rest / 1024 % 2 == 1 then p_gid else gid

-- A permission word of a regular file has the flags of no other type.
abbrev only_regular : ℕ → Bool
only_regular p =
    not (contains p s_ifsock)
    && not (contains p s_ifchr)
    && not (contains p s_ifblk)
    && not (contains p s_ififo)
    && not (contains p s_ifdir)
    && not (contains p s_iflnk)

regular_table : every_below 4096 (λ v. only_regular (s_ifreg + v)) ≡ true
unfolding every_below contains
regular_table = refl

pub regular_flags :
    (rest : ℕ)
    → rest < 2 ^ 12
    → (contains (s_ifreg + rest) s_ifdir ≡ false)
      × (contains (s_ifreg + rest) s_iflnk ≡ false)
      × ((target : Option Bytes) (dev : Option ℕ)
          → created_shape (s_ifreg + rest) target dev ≡ ok (1, 0, none))
unfolding created_shape
regular_flags rest h =
    let e : only_regular (s_ifreg + rest) ≡ true =
      every_below-at 4096 (λ v. only_regular (s_ifreg + v)) rest regular_table h in
    (ground (arith, e), ground (arith, e), λ target dev. ground (arith, e))

cleared_table :
    every_below 4096 (λ v. remove (remove (s_ifreg + v) s_isuid) s_isgid == 0o100000 + v % 1024)
    ≡ true
unfolding every_below remove
cleared_table = refl

group_table :
    every_below 4096 (λ v. (if contains (s_ifreg + v) s_isgid then 1 else 0) == v / 1024 % 2) ≡ true
unfolding every_below contains
group_table = refl

pub created_mode-regular_mode :
    (uid rest p_mode : ℕ)
    → rest < 2 ^ 12
    → created_mode uid (s_ifreg + rest) p_mode ≡ regular_mode uid rest
unfolding created_mode
created_mode-regular_mode uid rest p_mode h =
    let cleared : remove (remove (s_ifreg + rest) s_isuid) s_isgid ≡ 0o100000 + rest % 1024 =
      (==_iff _ _).0 (
        every_below-at 4096
          (λ v. remove (remove (s_ifreg + v) s_isuid) s_isgid == 0o100000 + v % 1024) rest
          cleared_table h) in
    rw ((regular_flags rest h).0, cleared) (ground arith)

pub creation_gid-regular_gid :
    (p_gid rest gid : ℕ)
    → rest < 2 ^ 12
    → creation_gid p_gid (s_ifreg + rest) gid ≡ regular_gid p_gid rest gid
unfolding creation_gid
creation_gid-regular_gid p_gid rest gid h =
    let group : (if contains (s_ifreg + rest) s_isgid then 1 else 0) ≡ rest / 1024 % 2 =
      (==_iff _ _).0 (
        every_below-at 4096 (λ v. (if contains (s_ifreg + v) s_isgid then 1 else 0) == v / 1024 % 2)
          rest group_table h) in
    ground (arith, group)
