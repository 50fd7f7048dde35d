-- ===== src/Tests/Disk.antt =====
-- A database in memory with a root directory, and the laws that it meets.
use dbfs.Prelude.{refl, arith, Bytes, codes}
use dbfs.Common.Time.{DbfsTimeSpec}
use dbfs.Bytes.{decimal}
use dbfs.Common.Keys.{ino_key, generate_data_key}
use dbfs.Kv.Memory.{Disk, empty_disk, memory}
use dbfs.Store.Tx.{State}
use dbfs.Store.Atomic.{Serves}
use dbfs.Inode.Row.{Row, IsRow, Holds}
use dbfs.Inode.Create.{filled, Holds-filled}

abbrev pub noon : DbfsTimeSpec
noon = record { sec = 43200; nsec = 5 }

abbrev pub root_row : Row
root_row = record {
  size = 2;
  mode = 0o40755;
  hard_links = 2;
  uid = 0;
  gid = 0;
  block_size = 32768;
  atime = noon;
  mtime = noon;
  ctime = noon;
}

abbrev pub root_disk : Disk
root_disk = filled memory 1 root_row empty_disk

abbrev pub root_state : State Disk
root_state = record { db = root_disk; next_inode = 2 }

pub memory-Serves : Serves memory
memory-Serves = record { begins = λ w d. refl; commits = λ d. refl }

pub root_row-IsRow : IsRow root_row
root_row-IsRow = record {
  size_fits = omega arith;
  mode_fits = omega arith;
  hard_links_fits = omega arith;
  uid_fits = omega arith;
  gid_fits = omega arith;
  block_size_fits = omega arith;
  atime_fits = record { sec_fits = omega arith; nsec_fits = omega arith };
  mtime_fits = record { sec_fits = omega arith; nsec_fits = omega arith };
  ctime_fits = record { sec_fits = omega arith; nsec_fits = omega arith };
}

pub root_disk-Holds : Holds memory 1 root_row root_disk
root_disk-Holds = Holds-filled memory 1 root_row empty_disk

abbrev pub note : Bytes
note = codes "note"

-- A root directory with the file `note`, inode 2, and the empty directory `box`, inode 3.
abbrev pub full_row : Row
full_row = record root_row { size = 4 }

abbrev pub note_row : Row
note_row = record root_row { size = 0; mode = 0o100644; hard_links = 1; uid = 1000; gid = 1000 }

abbrev pub box : Bytes
box = codes "box"

abbrev pub box_row : Row
box_row = record root_row { uid = 1000; gid = 1000 }

abbrev pub full_disk : Disk
full_disk = memory.with_kv (ino_key 1) (generate_data_key note) (decimal 2) (
    memory.with_kv (ino_key 1) (generate_data_key box) (decimal 3)
      (filled memory 3 box_row (filled memory 2 note_row (filled memory 1 full_row empty_disk))))

abbrev pub full_state : State Disk
full_state = record { db = full_disk; next_inode = 4 }

pub full_row-IsRow : IsRow full_row
full_row-IsRow = record {
  size_fits = omega arith;
  mode_fits = omega arith;
  hard_links_fits = omega arith;
  uid_fits = omega arith;
  gid_fits = omega arith;
  block_size_fits = omega arith;
  atime_fits = root_row-IsRow.atime_fits;
  mtime_fits = root_row-IsRow.mtime_fits;
  ctime_fits = root_row-IsRow.ctime_fits;
}

pub note_row-IsRow : IsRow note_row
note_row-IsRow = record {
  size_fits = omega arith;
  mode_fits = omega arith;
  hard_links_fits = omega arith;
  uid_fits = omega arith;
  gid_fits = omega arith;
  block_size_fits = omega arith;
  atime_fits = root_row-IsRow.atime_fits;
  mtime_fits = root_row-IsRow.mtime_fits;
  ctime_fits = root_row-IsRow.ctime_fits;
}

pub box_row-IsRow : IsRow box_row
box_row-IsRow = record {
  size_fits = omega arith;
  mode_fits = omega arith;
  hard_links_fits = omega arith;
  uid_fits = omega arith;
  gid_fits = omega arith;
  block_size_fits = omega arith;
  atime_fits = root_row-IsRow.atime_fits;
  mtime_fits = root_row-IsRow.mtime_fits;
  ctime_fits = root_row-IsRow.ctime_fits;
}

pub full_disk-Holds : Holds memory 1 full_row full_disk
unfolding ino_key dbfs.Bytes.be_bytes
full_disk-Holds = record {
  there = refl;
  size_at = refl;
  mode_at = refl;
  hard_links_at = refl;
  uid_at = refl;
  gid_at = refl;
  block_size_at = refl;
  atime_at = refl;
  mtime_at = refl;
  ctime_at = refl;
}

pub note-Holds : Holds memory 2 note_row full_disk
unfolding ino_key dbfs.Bytes.be_bytes
note-Holds = record {
  there = refl;
  size_at = refl;
  mode_at = refl;
  hard_links_at = refl;
  uid_at = refl;
  gid_at = refl;
  block_size_at = refl;
  atime_at = refl;
  mtime_at = refl;
  ctime_at = refl;
}

pub box-Holds : Holds memory 3 box_row full_disk
unfolding ino_key dbfs.Bytes.be_bytes
box-Holds = record {
  there = refl;
  size_at = refl;
  mode_at = refl;
  hard_links_at = refl;
  uid_at = refl;
  gid_at = refl;
  block_size_at = refl;
  atime_at = refl;
  mtime_at = refl;
  ctime_at = refl;
}

-- The same with the entry `self` for the root directory, which has four entries.
abbrev pub loop_state : State Disk
loop_state = record full_state {
  db = memory.with_kv (ino_key 1) (generate_data_key (codes "self")) (decimal 1) full_disk;
}

pub loop-Holds : Holds memory 1 full_row loop_state.db
unfolding ino_key dbfs.Bytes.be_bytes
loop-Holds = record {
  there = refl;
  size_at = refl;
  mode_at = refl;
  hard_links_at = refl;
  uid_at = refl;
  gid_at = refl;
  block_size_at = refl;
  atime_at = refl;
  mtime_at = refl;
  ctime_at = refl;
}
