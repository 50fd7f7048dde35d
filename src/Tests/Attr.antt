-- ===== src/Tests/Attr.antt =====
-- Changes of attributes of the file `note`.
use dbfs.Prelude.{◌≡◌, refl, arith, Bytes, codes, false, none, some, bit_and, replicate}
use dbfs.Prelude.Res.{ok, err}
use dbfs.Common.Error.{DbfsError, permission_denied}
use dbfs.Common.Permission.{regular_file, file_type_of, is_device}
use dbfs.Common.Keys.{ino_key}
use dbfs.Access.{access_r_ok, access_w_ok, xattr_access_check}
use dbfs.Access.SetId.{file_type_of-type_bits}
use dbfs.Kv.Memory.{memory, Disk}
use dbfs.Store.Tx.{State}
use dbfs.Inode.Row.{Holds, attr_of}
use dbfs.Inode.{dbfs_common_attr}
use dbfs.Inode.Create.Lookup.{attr-Holds}
use dbfs.Attr.{
  dbfs_common_chmod, chown_mode, dbfs_common_setxattr, dbfs_common_getxattr,
  dbfs_common_removexattr,
}
use dbfs.Attr.Chmod.{Chmodded, chmod_owner}
use dbfs.Attr.Chown.{expected, chown_mode_lem, ChownRefused, chown_refused}
use dbfs.Attr.Xattr.{SetAndRead, setxattr-getxattr, xattr_refused, removexattr_lost}
use dbfs.Tests.Disk.{noon, full_state, note_row, note_row-IsRow, note-Holds, memory-Serves}

note_kind : file_type_of {E = DbfsError} 0o100644 ≡ ok regular_file
note_kind = file_type_of-type_bits regular_file 0o644 (omega arith)

no_device : is_device regular_file ≡ false
unfolding is_device
no_device = refl

attr-Holds_example :
    dbfs_common_attr memory 2 full_state ≡ (ok (attr_of 2 note_row regular_file), full_state)
attr-Holds_example =
    attr-Holds memory memory-Serves full_state 2 note_row regular_file note-Holds note_row-IsRow
      note_kind no_device (omega arith)

chmod_owner_example :
    Chmodded memory full_state 1000 1000 2 0o600 noon note_row regular_file
      (dbfs_common_chmod memory 1000 1000 2 0o600 noon full_state)
chmod_owner_example =
    chmod_owner memory full_state 1000 1000 2 0o600 noon note_row regular_file memory-Serves
      note-Holds note_row-IsRow note_kind no_device (omega arith) refl refl

chown_mode_lem_example : chown_mode (some 5) none 0o106755 ≡ expected (some 5) none 0o106755
chown_mode_lem_example = chown_mode_lem (some 5) none 0o106755 (omega arith)

chown_refused_example : ChownRefused memory full_state 1000 1000 2 noon note_row
chown_refused_example =
    chown_refused memory memory-Serves full_state 1000 1000 2 noon note_row regular_file note-Holds
      note_row-IsRow note_kind no_device (omega arith) (λ e. omega arith)

abbrev color : Bytes
color = codes "user.color"

abbrev red : Bytes
red = codes "red"

owner_reads :
    xattr_access_check color access_r_ok 1000 1000 1000 1000 (bit_and 0o100644 0o777) ≡ ok tt
unfolding xattr_access_check dbfs.Access.checkout_access
owner_reads = refl

owner_writes :
    xattr_access_check color access_w_ok 1000 1000 1000 1000 (bit_and 0o100644 0o777) ≡ ok tt
unfolding xattr_access_check dbfs.Access.checkout_access
owner_writes = refl

abbrev denied_key : Bytes
denied_key = codes "trusted.mine"

user_reads :
    xattr_access_check denied_key access_r_ok 1000 1000 1000 1000 (bit_and 0o100644 0o777)
    ≡ err permission_denied
unfolding xattr_access_check
user_reads = refl

user_writes :
    xattr_access_check denied_key access_w_ok 1000 1000 1000 1000 (bit_and 0o100644 0o777)
    ≡ err permission_denied
unfolding xattr_access_check
user_writes = refl

xattr_refused_example :
    (dbfs_common_setxattr memory 1000 1000 2 denied_key red noon full_state
      ≡ (err permission_denied, full_state))
    × (dbfs_common_getxattr memory 1000 1000 2 denied_key (replicate 4 9) full_state
        ≡ (err permission_denied, full_state))
    × (dbfs_common_removexattr memory 1000 1000 2 denied_key noon full_state
        ≡ (err permission_denied, full_state))
xattr_refused_example =
    xattr_refused memory memory-Serves full_state 1000 1000 2 denied_key red (replicate 4 9) noon
      note_row note-Holds note_row-IsRow permission_denied user_reads user_writes

color_there :
    memory.get_kv
      (ino_key 2)
      color
      (record full_state { db = memory.with_kv (ino_key 2) color red full_state.db }).db
    ≡ some red
unfolding ino_key dbfs.Bytes.be_bytes
color_there = refl

abbrev colored : State Disk
colored = record full_state { db = memory.with_kv (ino_key 2) color red full_state.db }

colored-Holds : Holds memory 2 note_row colored.db
unfolding ino_key dbfs.Bytes.be_bytes
colored-Holds = record {
  there = refl;
  size_at = refl;
  mode_at = refl;
  hard_links_at = refl;
  uid_at = refl;
  gid_at = refl;
  block_size_at = refl;
  atime_at = refl;
  mtime_at = refl;
  ctime_at = refl;
}

removexattr_lost_example :
    dbfs_common_removexattr memory 1000 1000 2 color noon colored ≡ (ok tt, colored)
removexattr_lost_example =
    removexattr_lost memory memory-Serves colored 1000 1000 2 color red (replicate 4 9) noon
      note_row colored-Holds note_row-IsRow owner_writes color_there

setxattr-getxattr_example :
    SetAndRead memory full_state 1000 1000 2 color red (replicate 4 9) noon note_row
setxattr-getxattr_example =
    setxattr-getxattr memory memory-Serves full_state 1000 1000 2 color red (replicate 4 9) noon
      note_row note-Holds note_row-IsRow owner_reads (omega arith) (omega arith)
