-- ===== src/Tests/Vfs.antt =====
-- The adapter and the engine on the mounted file system.
use dbfs.Prelude.{
  [], ◌∷◌, ℕ, ◌≡◌, ◌≢◌, refl, ap, ◌∙◌, sym, inl, inr, true, false, Option, none, some, Bytes, codes,
  arith, Bool-cases, same, same→eq, bit_or,
}
use dbfs.Prelude.Res.{ok}
use dbfs.Bytes.{be_bytes, from_be, decimal}
use dbfs.Common.Error.{DbfsResult}
use dbfs.Kv.Cursor.Listed.{listed, listed_cursor}
use dbfs.Engine.{Extent, truncate_metadata, find_extent, holds}
use dbfs.Engine.Index.{TransactionEngine, dir_bucket, number_or_other}
use dbfs.Engine.Dentries.{lookup_dentry}
use dbfs.Engine.Dentries.Lookup.{number_or_other-be_bytes}
use dbfs.Engine.Dentries.Edit.{
  EntryAdded, EntryDeleted, add_dentry-lookup, delete_dentry-lookup, lookup_dentry-run,
}
use dbfs.Engine.Inodes.{get_metadata, truncate_file}
use dbfs.Engine.Inodes.Edit.{MetaWritten, get_metadata-run, truncate_file-MetaWritten}
use dbfs.Engine.Inodes.Allocate.{IsNumbered, Allocated, allocate_inode-Allocated}
use dbfs.Engine.Data.{read_from_log, push_extent}
use dbfs.Engine.Data.Loop.{AllWithin}
use dbfs.Engine.Data.Bounds.{
  InBounds, read_from_log-ends, read_from_log-InBounds, IsContained, IsContained-kept,
}
use dbfs.Engine.Data.Fresh.{AllClear}
use dbfs.Engine.Data.Hidden.{IsCovered, AllBefore, read_from_log-same, overwrite_unseen}
use dbfs.Engine.Data.Write.{DataWritten, write_file_transactional-read_file}
use dbfs.LogManager.{LogManager, append_data, read_data}
use dbfs.Vfs.{lookup, create, mkdir}
use dbfs.Vfs.Names.{lookup-run}
use dbfs.Vfs.Create.{Created, create-Created}
use dbfs.Vfs.Rename.{Renamed, rename_to-Renamed, SelfRenamed, rename_to_self}
use dbfs.Vfs.Mount.Root.{RootMounted, mount_init-RootMounted}
use dbfs.Vfs.Unlink.{Unlinked, unlink-Unlinked}
use dbfs.Tests.LogManager.{cells, tape, tape-Keeps, blank}
use dbfs.Tests.Mounted.{numbers_serde, listed-Serves, file_meta, mounted_db, mounted}

mounted_numbers : IsNumbered listed mounted_db
mounted_numbers key v h = elim (Bool-cases (same (be_bytes 8 1) key)) [
  | inl e ↦ (
    1,
    ap number_or_other (sym (same→eq (be_bytes 8 1) key e))
        ∙ number_or_other-be_bytes 1 (omega arith),
    omega arith,
  )
  | inr n1 ↦ elim (Bool-cases (same (be_bytes 8 2) key)) [
    | inl e ↦ (
      2,
      ap number_or_other (sym (same→eq (be_bytes 8 2) key e))
          ∙ number_or_other-be_bytes 2 (omega arith),
      omega arith,
    )
    | inr n2 ↦ absurd (nothing (rw (n1, n2) at h))
  ]
]
  where
    nothing : ◌≡◌ {A = Option Bytes} none (some v) → ⊥
    nothing e = cc

note_found : lookup_dentry listed listed_cursor tape 1 (codes "note") mounted ≡ (ok 2, mounted)
unfolding decimal be_bytes from_be dir_bucket number_or_other
note_found = lookup_dentry-run listed listed_cursor tape listed-Serves 1 (codes "note") mounted

note_looked_up :
    lookup listed listed_cursor tape numbers_serde 1 (codes "note") mounted ≡ (ok 2, mounted)
unfolding decimal be_bytes from_be dir_bucket number_or_other
note_looked_up =
    lookup-run listed listed_cursor tape numbers_serde listed-Serves 1 (codes "note") mounted

file_read : get_metadata listed listed_cursor tape numbers_serde 2 mounted ≡ (ok file_meta, mounted)
unfolding be_bytes
file_read = get_metadata-run listed listed_cursor tape numbers_serde listed-Serves 2 mounted

file_meta-within : AllWithin file_meta.size file_meta.extents
unfolding AllWithin
file_meta-within = (omega arith, tt)

file_meta-clear : AllClear 100 103 file_meta.extents
unfolding AllClear
file_meta-clear = (inr (omega arith), tt)

note-ne : codes "note" ≢ codes "memo"
note-ne e = apart (ap (same (codes "note")) e)
  where
    apart : true ≡ false → ⊥
    apart h = cc

add_dentry-lookup_example : EntryAdded listed listed_cursor tape 1 (codes "memo") mounted 3
add_dentry-lookup_example =
    add_dentry-lookup listed listed_cursor tape listed-Serves 1 (codes "memo") mounted (omega arith)
      3 (omega arith)

delete_dentry-lookup_example : EntryDeleted listed listed_cursor tape 1 (codes "note") mounted
delete_dentry-lookup_example =
    delete_dentry-lookup listed listed_cursor tape listed-Serves 1 (codes "note") mounted
      (omega arith) note_found

allocate_inode-Allocated_example :
    Allocated listed listed_cursor tape numbers_serde 0o100644 mounted
allocate_inode-Allocated_example =
    allocate_inode-Allocated listed listed_cursor tape numbers_serde listed-Serves 0o100644 mounted
      refl mounted_numbers

truncate_file-MetaWritten_example :
    ((truncate_file listed listed_cursor tape numbers_serde 2 40 mounted).0 ≡ ok tt)
    × MetaWritten listed listed_cursor tape numbers_serde 2
        (truncate_metadata 40 file_meta)
        mounted
        (truncate_file listed listed_cursor tape numbers_serde 2 40 mounted).1
truncate_file-MetaWritten_example =
    truncate_file-MetaWritten listed listed_cursor tape numbers_serde listed-Serves 2 40 mounted
      (omega arith) file_read

read_from_log-ends_example :
    (r : DbfsResult (ℕ × Bytes)) × (read_from_log tape blank file_meta 98 (codes "buffer") ≡ some r)
read_from_log-ends_example = read_from_log-ends tape blank file_meta 98 (codes "buffer")

read_from_log-InBounds_example :
    (r : DbfsResult (ℕ × Bytes)) × (read_from_log tape blank file_meta 98 (codes "buffer") ≡ some r)
    × InBounds tape blank file_meta 98 (codes "buffer") r
read_from_log-InBounds_example =
    read_from_log-InBounds tape blank file_meta 98 (codes "buffer") file_meta-within (omega arith)

IsContained-kept_example :
    IsContained (push_extent 90 (codes "twenty bytes of data") 4096 file_meta)
    × IsContained (truncate_metadata 40 file_meta)
IsContained-kept_example =
    IsContained-kept file_meta 90 (codes "twenty bytes of data") 4096 40
      (omega arith, file_meta-within) (omega arith) (omega arith)

write_file_transactional-read_file_example :
    DataWritten listed listed_cursor tape numbers_serde 2 100
      (codes "new")
      (codes "old")
      mounted
      file_meta
write_file_transactional-read_file_example =
    write_file_transactional-read_file listed listed_cursor tape numbers_serde listed-Serves
      tape-Keeps 2 100 (codes "new") (codes "old") mounted file_read (omega arith) (omega arith)
      (omega arith) (omega arith) refl file_meta-clear

file_meta-IsCovered : IsCovered 7 6 file_meta.extents
unfolding find_extent holds
file_meta-IsCovered o low high =
    (record { logical_off = 0; physical_ptr = 0; len = 100; crc = 0 }, ground arith)

file_meta-before : AllBefore 4096 file_meta.extents
unfolding AllBefore
file_meta-before = (omega arith, tt)

-- A device with a different number at each position.
abbrev counted : LogManager tape
counted = record { device = λ i. i; next_append_pos = 4096 }

read_from_log-same_example :
    read_from_log tape
      (append_data tape (codes "overwritten") counted).1
      (push_extent 5 (codes "overwritten") 4096 file_meta)
      7
      (codes "buffer")
    ≡ read_from_log tape counted file_meta 7 (codes "buffer")
read_from_log-same_example =
    read_from_log-same tape tape-Keeps counted file_meta 5 (codes "overwritten") file_meta-before
      (omega arith) 7 (codes "buffer") (omega arith) (omega arith) file_meta-IsCovered (omega arith)

abbrev file_extent : Extent
file_extent = record { logical_off = 0; physical_ptr = 0; len = 100; crc = 0 }

seven_found : find_extent 7 file_meta.extents ≡ some file_extent
unfolding find_extent holds
seven_found = refl

seven_read : read_data tape 7 6 counted ≡ ok (6, 7 ∷ 8 ∷ 9 ∷ 10 ∷ 11 ∷ 12 ∷ [])
unfolding read_data cells
seven_read = refl

overwrite_unseen_example :
    (read_from_log tape counted file_meta 7 (codes "buffer")
      ≡ some (ok (6, 7 ∷ 8 ∷ 9 ∷ 10 ∷ 11 ∷ 12 ∷ [])))
    × (read_from_log tape
          (append_data tape (codes "overwritten") counted).1
          (push_extent 5 (codes "overwritten") 4096 file_meta)
          7
          (codes "buffer")
        ≡ some (ok (6, 7 ∷ 8 ∷ 9 ∷ 10 ∷ 11 ∷ 12 ∷ [])))
overwrite_unseen_example =
    overwrite_unseen tape tape-Keeps counted file_meta 5 (codes "overwritten") file_meta-before
      (omega arith) 7 (codes "buffer") (omega arith) (omega arith) file_extent seven_found
      (omega arith) (7 ∷ 8 ∷ 9 ∷ 10 ∷ 11 ∷ 12 ∷ []) refl seven_read (omega arith)

create-Created_example :
    Created listed listed_cursor tape numbers_serde 1
      (codes "memo")
      mounted
      (bit_or 0o100000 0o644)
      (create listed listed_cursor tape numbers_serde 1 (codes "memo") 0o644 mounted)
    × Created listed listed_cursor tape numbers_serde 1
        (codes "memo")
        mounted
        (bit_or 0o040000 0o644)
        (mkdir listed listed_cursor tape numbers_serde 1 (codes "memo") 0o644 mounted)
create-Created_example =
    create-Created listed listed_cursor tape numbers_serde 1 (codes "memo") mounted listed-Serves
      (omega arith) 0o644 refl mounted_numbers

rename_to-Renamed_example :
    Renamed listed listed_cursor tape numbers_serde 1 (codes "note") 1 (codes "memo") mounted 2
rename_to-Renamed_example =
    rename_to-Renamed listed listed_cursor tape numbers_serde listed-Serves 1 (codes "note") mounted
      (omega arith) 1 (codes "memo") (omega arith) (omega arith) (inr note-ne) note_looked_up

rename_to_self_example :
    SelfRenamed listed listed_cursor tape numbers_serde 1 (codes "note") mounted
rename_to_self_example =
    rename_to_self listed listed_cursor tape numbers_serde listed-Serves 1 (codes "note") mounted
      (omega arith) (omega arith) note_looked_up

unlink-Unlinked_example :
    Unlinked listed listed_cursor tape numbers_serde 1 (codes "note") mounted 2 file_meta
unlink-Unlinked_example =
    unlink-Unlinked listed listed_cursor tape numbers_serde listed-Serves 1 (codes "note") mounted 2
      file_meta note_looked_up file_read refl (omega arith) (omega arith) (λ e. omega (arith, e))

-- A database without a bucket.
abbrev empty : TransactionEngine listed tape
empty = record { db = record { names = []; cells = [] }; log_manager = blank }

mount_init-RootMounted_example : RootMounted listed listed_cursor tape numbers_serde 4096 empty
mount_init-RootMounted_example =
    mount_init-RootMounted listed listed_cursor tape numbers_serde listed-Serves 4096 empty
      (record { no_inodes = refl; no_super_blk = refl; no_root = refl })
