-- ===== src/Access/SetId.antt =====
-- `clear_suid_sgid` and the file type of a mode word, by the digits of the word.
use dbfs.Prelude.{
  ℕ, ◌+◌, ◌-◌, ◌*◌, ◌/◌, ◌%◌, ◌^◌, ◌<◌, ◌≡◌, refl, Bool, true, arith, ◌==◌, ==_iff, if◌then◌else◌,
}
use dbfs.Prelude.Bits.{every_below, every_below-at}
use dbfs.Prelude.Res.{Res, ok, err, panic}
use dbfs.Common.Error.{DbfsError}
use dbfs.Common.Permission.{
  DbfsFileType, named_pipe, char_device, block_device, directory, regular_file, symlink, socket,
  file_type_of, s_ififo, s_ifchr, s_ifblk, s_ifdir, s_ifreg, s_iflnk, s_ifsock,
}
use dbfs.Access.{clear_suid_sgid}

-- The mode without the set-user-id bit, and without the set-group-id bit where the group may
-- execute; all other bits are kept.
abbrev pub without_set_ids : ℕ → ℕ
without_set_ids mode =
    mode - mode / 2048 % 2 * 2048 - (if mode / 8 % 2 == 1 then mode / 1024 % 2 * 1024 else 0)

set_id_table : every_below 65536 (λ v. clear_suid_sgid v == without_set_ids v) ≡ true
unfolding every_below clear_suid_sgid
set_id_table = refl

-- On every `u16`, `clear_suid_sgid` clears the set-user-id bit, clears the set-group-id bit exactly
-- where the group may execute, and keeps every other bit.
pub clear_suid_sgid_lem : (mode : ℕ) → mode < 2 ^ 16 → clear_suid_sgid mode ≡ without_set_ids mode
clear_suid_sgid_lem mode h =
    (==_iff _ _).0
      (every_below-at 65536 (λ v. clear_suid_sgid v == without_set_ids v) mode set_id_table h)

-- The `S_IF…` bits of a file type.
abbrev pub type_bits : DbfsFileType → ℕ
type_bits named_pipe = s_ififo
type_bits char_device = s_ifchr
type_bits block_device = s_ifblk
type_bits directory = s_ifdir
type_bits regular_file = s_ifreg
type_bits symlink = s_iflnk
type_bits socket = s_ifsock

abbrev tag : DbfsFileType → ℕ
tag named_pipe = 1
tag char_device = 2
tag block_device = 6
tag directory = 4
tag regular_file = 8
tag symlink = 10
tag socket = 12

abbrev tag_of : Res DbfsError DbfsFileType → ℕ
tag_of (ok t) = tag t
tag_of (err e) = 0
tag_of panic = 0

tag_injective : (t : DbfsFileType) (r : Res DbfsError DbfsFileType) → tag_of r ≡ tag t → r ≡ ok t
tag_injective t r h = ground arith

abbrev reads_back : DbfsFileType → Bool
reads_back t = every_below 4096 (λ v. tag_of (file_type_of (type_bits t + v)) == tag t)

reads_back_all : (t : DbfsFileType) → reads_back t ≡ true
unfolding every_below file_type_of
reads_back_all named_pipe = refl
reads_back_all char_device = refl
reads_back_all block_device = refl
reads_back_all directory = refl
reads_back_all regular_file = refl
reads_back_all symlink = refl
reads_back_all socket = refl

-- A mode word with the bits of a file type, whatever its permission bits, is read as that type.
pub file_type_of-type_bits :
    (t : DbfsFileType) (rest : ℕ)
    → rest < 2 ^ 12
    → file_type_of {E = DbfsError} (type_bits t + rest) ≡ ok t
file_type_of-type_bits t rest h = tag_injective t (file_type_of (type_bits t + rest)) (
    (==_iff _ _).0 (
      every_below-at 4096 (λ v. tag_of (file_type_of (type_bits t + v)) == tag t) rest
        (reads_back_all t) h))
