-- ===== src/Common/Permission.antt =====
-- The mode word of an inode: `DbfsPermission`, a `bitflags` struct over `u16`, and the file type
-- that its upper bits name.
use dbfs.Prelude.{
  ℕ, Bool, true, false, bit_and, bit_or, bit_xor, Bytes, ◌==◌, same, codes, Option, none, some,
  if◌then◌else◌,
}
use dbfs.Prelude.Res.{Res, ok, panic}

-- The flags, in octal as in the source.
abbrev pub s_ifmt : ℕ
s_ifmt = 0o170000

abbrev pub s_ifsock : ℕ
s_ifsock = 0o140000

abbrev pub s_iflnk : ℕ
s_iflnk = 0o120000

abbrev pub s_ifreg : ℕ
s_ifreg = 0o100000

abbrev pub s_ifblk : ℕ
s_ifblk = 0o060000

abbrev pub s_ifdir : ℕ
s_ifdir = 0o040000

abbrev pub s_ifchr : ℕ
s_ifchr = 0o020000

abbrev pub s_ififo : ℕ
s_ififo = 0o010000

abbrev pub s_isuid : ℕ
s_isuid = 0o004000

abbrev pub s_isgid : ℕ
s_isgid = 0o002000

abbrev pub s_isvtx : ℕ
s_isvtx = 0o001000

abbrev pub s_ixusr : ℕ
s_ixusr = 0o100

abbrev pub s_ixgrp : ℕ
s_ixgrp = 0o010

abbrev pub s_ixoth : ℕ
s_ixoth = 0o001

-- `a.contains(flag)`
unfoldable pub contains : ℕ → ℕ → Bool
contains a flag = bit_and a flag == flag

-- `a - flag`: the complement of `flag` within `u16`.
unfoldable pub remove : ℕ → ℕ → ℕ
remove a flag = bit_and a (bit_xor flag 0xffff)

-- `a | flag`
unfoldable pub insert : ℕ → ℕ → ℕ
insert a flag = bit_or a flag

-- `DbfsPermission::from_bits_truncate`: the flags together are all sixteen bits.
unfoldable pub from_bits_truncate : ℕ → ℕ
from_bits_truncate bits = bit_and bits 0xffff

-- `DbfsPermission::from_bits`: nothing where a bit outside the flags is set.
unfoldable pub from_bits : ℕ → Option ℕ
from_bits bits = if bit_and bits (bit_xor 0xffff 0xffff) == 0 then some bits else none

pub data DbfsFileType : Type 0 where
  named_pipe char_device block_device directory regular_file symlink socket : DbfsFileType

-- `impl From<DbfsPermission> for DbfsFileType`: the tests in the order of the source.
unfoldable pub file_type_of : {E : Type 0} → ℕ → Res E DbfsFileType
unfolding contains
file_type_of value =
    if contains value s_ifsock
    then ok socket
    else if contains value s_iflnk
    then ok symlink
    else if contains value s_ifreg
    then ok regular_file
    else if contains value s_ifblk
    then ok block_device
    else if contains value s_ifdir
    then ok directory
    else if contains value s_ifchr
    then ok char_device
    else if contains value s_ififo
    then ok named_pipe
    else panic

-- `impl From<&[u8]> for DbfsFileType`
unfoldable pub file_type_of_tag : {E : Type 0} → Bytes → Res E DbfsFileType
file_type_of_tag value =
    if same value (codes "p")
    then ok named_pipe
    else if same value (codes "c")
    then ok char_device
    else if same value (codes "b")
    then ok block_device
    else if same value (codes "d")
    then ok directory
    else if same value (codes "f")
    then ok regular_file
    else if same value (codes "l")
    then ok symlink
    else if same value (codes "s")
    then ok socket
    else panic

-- The two types whose inodes have a device number.
unfoldable pub is_device : DbfsFileType → Bool
is_device char_device = true
is_device block_device = true
is_device _ = false
