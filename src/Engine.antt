-- ===== src/Engine.antt =====
-- src/models.rs and src/tx_engine.rs: the extents of a file, and how a truncation changes them.
pub mod Truncate
pub mod Index
pub mod Inodes
pub mod Dentries
pub mod Data
pub mod Steps
use dbfs.Prelude.{
  ℕ, ◌+◌, ◌-◌, Bool, ◌&&◌, Option, none, some, List, [], ◌∷◌, ltb, leb, if◌then◌else◌,
}
use dbfs.Prelude.Words.{ℤ, add64}

pub record Extent : Type 0 where
  pub logical_off : ℕ
  pub physical_ptr : ℕ
  pub len : ℕ
  pub crc : ℕ

-- The two times are `i64`: 0 in a new inode, and what `set_attr` of src/rvfs_adapter.rs writes.
pub record InodeMetadata : Type 0 where
  pub ino : ℕ
  pub size : ℕ
  pub mode : ℕ
  pub nlink : ℕ
  pub extents : List Extent
  pub atime : ℤ
  pub mtime : ℤ

-- The test of `read_from_log` for the extent that holds a byte of the file.
unfoldable pub holds : ℕ → Extent → Bool
holds offset e = leb e.logical_off offset && ltb offset (add64 e.logical_off e.len)

-- `extents.iter().find(…)`
unfoldable pub find_extent : ℕ → List Extent → Option Extent
find_extent offset [] = none
find_extent offset (e ∷ es) =
    let rest = find_extent offset es in if holds offset e then some e else rest

-- `e.physical_ptr + off_in_extent`
abbrev position : ℕ → Option Extent → Option ℕ
position offset none = none
position offset (some e) = some (add64 e.physical_ptr (offset - e.logical_off))

-- Where `read_from_log` reads the byte at an offset, if it finds an extent for it.
unfoldable pub locate : ℕ → List Extent → Option ℕ
locate offset es = position offset (find_extent offset es)

-- The extent that the new end lies in is cut there.
unfoldable pub cut_extent : ℕ → Extent → Extent
cut_extent new_size e =
    if ltb new_size (add64 e.logical_off e.len)
    then record e { len = new_size - e.logical_off }
    else e

-- The loop of `truncate_file`: an extent behind the new end is dropped.
unfoldable pub truncate_extents : ℕ → List Extent → List Extent
truncate_extents new_size [] = []
truncate_extents new_size (e ∷ es) =
    let rest = truncate_extents new_size es in
    if ltb e.logical_off new_size then cut_extent new_size e ∷ rest else rest

-- What `truncate_file` makes of the metadata, between reading and writing it.
unfoldable pub truncate_metadata : ℕ → InodeMetadata → InodeMetadata
truncate_metadata new_size meta = record meta {
  extents = if ltb new_size meta.size then truncate_extents new_size meta.extents else meta.extents;
  size = new_size;
}
