-- ===== src/Tests/Create.antt =====
-- Creations in the root directory.
use dbfs.Prelude.{◌≡◌, ◌+◌, refl, arith, none, false, true, bit_and}
use dbfs.Prelude.Res.{ok, err}
use dbfs.Common.Error.{access_error}
use dbfs.Common.Permission.{s_ifreg, regular_file}
use dbfs.Common.Keys.{ino_key}
use dbfs.Access.{checkout_access}
use dbfs.Kv.Memory.{memory}
use dbfs.Inode.{dbfs_common_create, dbfs_common_lookup}
use dbfs.Inode.Row.{attr_of}
use dbfs.Inode.Create.File.{FileCreated, create_file, create_refused}
use dbfs.Inode.Create.Lookup.{create-lookup, made_row}
use dbfs.Tests.Disk.{
  noon, note, root_row, root_state, memory-Serves, root_row-IsRow, root_disk-Holds,
}

root_may : checkout_access 0 0 (bit_and 0o40755 0o777) 0 0 2 ≡ true
unfolding checkout_access
root_may = refl

other_may_not : checkout_access 0 0 (bit_and 0o40755 0o777) 1000 1000 2 ≡ false
unfolding checkout_access
other_may_not = refl

two_free : memory.has (ino_key 2) root_state.db ≡ false
unfolding ino_key dbfs.Bytes.be_bytes
two_free = refl

create_file_example :
    FileCreated memory root_state 1 note 0 0 noon 0o644 none none root_row
      (dbfs_common_create memory 1 note 0 0 noon (s_ifreg + 0o644) none none root_state)
create_file_example =
    create_file memory root_state 1 note 0 0 noon 0o644 none none root_row memory-Serves
      root_disk-Holds root_row-IsRow root_may two_free (omega arith)

create_refused_example :
    dbfs_common_create memory 1 note 1000 1000 noon (s_ifreg + 0o644) none none root_state
    ≡ (err access_error, record root_state { next_inode = 3 })
create_refused_example =
    create_refused memory root_state 1 note 1000 1000 noon none none root_row memory-Serves
      root_disk-Holds root_row-IsRow other_may_not (s_ifreg + 0o644)

create-lookup_example :
    let after =
      (dbfs_common_create memory 1 note 0 0 noon (s_ifreg + 0o644) none none root_state).1 in
    dbfs_common_lookup memory 1 note after ≡ (
      ok (
          attr_of 2
            (made_row memory root_state 1 note 0 0 noon 0o644 none none root_row)
            regular_file),
      after,
    )
create-lookup_example =
    create-lookup memory root_state 1 note 0 0 noon 0o644 none none root_row memory-Serves
      root_disk-Holds root_row-IsRow root_may two_free (omega arith) (omega arith) (omega arith)
      (omega arith) root_row-IsRow.atime_fits
