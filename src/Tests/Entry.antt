-- ===== src/Tests/Entry.antt =====
-- Entries taken from the root directory.
use dbfs.Prelude.{◌≡◌, codes, refl, arith, none, some, bit_and, false, true}
use dbfs.Bytes.{decimal}
use dbfs.Common.Keys.{ino_key, generate_data_key}
use dbfs.Access.{checkout_access}
use dbfs.Kv.Memory.{memory}
use dbfs.Inode.{dbfs_common_unlink, dbfs_common_rmdir}
use dbfs.Inode.Rmdir.{Removed, rmdir_entry, rmdir_not_empty}
use dbfs.Common.Error.{not_empty}
use dbfs.Prelude.Res.{err}
use dbfs.Inode.Body.Entry.{sticky_bars}
use dbfs.Inode.Unlink.Whole.{Unlinked, unlink_entry}
use dbfs.Tests.Disk.{
  box, box_row, box_row-IsRow, box-Holds, loop_state, loop-Holds, noon, note, full_row, full_state,
  note_row, note_row-IsRow, note-Holds, memory-Serves, full_row-IsRow, full_disk-Holds,
}

root_may : checkout_access 0 0 (bit_and 0o40755 0o777) 0 0 2 ≡ true
unfolding checkout_access
root_may = refl

note_free : sticky_bars 0o40755 0 0 1000 ≡ false
unfolding dbfs.Common.Permission.contains dbfs.Common.Permission.from_bits_truncate
note_free = refl

note_entry : memory.get_kv (ino_key 1) (generate_data_key note) full_state.db ≡ some (decimal 2)
unfolding ino_key dbfs.Bytes.be_bytes
note_entry = refl

unlink_entry_example :
    Unlinked memory full_state 0 0 1 note noon full_row 2 note_row
      (dbfs_common_unlink memory 0 0 1 note none noon full_state)
unlink_entry_example =
    unlink_entry memory full_state 0 0 1 note noon full_row 2 note_row memory-Serves full_disk-Holds
      full_row-IsRow note-Holds note_row-IsRow root_may note_free note_entry (omega arith)
      (omega arith) (λ e. omega arith)

box_free : sticky_bars 0o40755 0 0 1000 ≡ false
box_free = note_free

box_entry : memory.get_kv (ino_key 1) (generate_data_key box) full_state.db ≡ some (decimal 3)
unfolding ino_key dbfs.Bytes.be_bytes
box_entry = refl

root_entry :
    memory.get_kv (ino_key 1) (generate_data_key (codes "self")) loop_state.db ≡ some (decimal 1)
unfolding ino_key dbfs.Bytes.be_bytes
root_entry = refl

rmdir_entry_example :
    Removed memory full_state 0 0 1 box noon full_row 3 box_row
      (dbfs_common_rmdir memory 0 0 1 box noon full_state)
rmdir_entry_example =
    rmdir_entry memory full_state 0 0 1 box noon full_row 3 box_row memory-Serves full_disk-Holds
      full_row-IsRow box-Holds box_row-IsRow box_entry (omega arith) root_may box_free refl
      (omega arith) (λ e. omega arith)

rmdir_not_empty_example :
    dbfs_common_rmdir memory 0 0 1 (codes "self") noon loop_state ≡ (err not_empty, loop_state)
rmdir_not_empty_example =
    rmdir_not_empty memory loop_state 0 0 1 (codes "self") noon full_row 1 full_row memory-Serves
      loop-Holds full_row-IsRow loop-Holds full_row-IsRow root_entry (omega arith) refl
