-- ===== src/Tests/Engine.antt =====
-- A file of two extents, cut within the second.
use dbfs.Prelude.{arith, [], ◌∷◌}
use dbfs.Prelude.Words.{pos}
use dbfs.Engine.{InodeMetadata, truncate_metadata}
use dbfs.Engine.Truncate.{AllBounded, Shrunk, truncate-locate}

abbrev two_extents : InodeMetadata
two_extents = record {
  ino = 2;
  size = 200;
  mode = 0o100644;
  nlink = 1;
  extents =
      record { logical_off = 0; physical_ptr = 4096; len = 100; crc = 0 }
      ∷ record { logical_off = 100; physical_ptr = 8192; len = 100; crc = 0 }
      ∷ [];
  atime = pos 0;
  mtime = pos 0;
}

two_extents-AllBounded : AllBounded two_extents.extents
unfolding AllBounded
two_extents-AllBounded = (omega arith, (omega arith, tt))

truncate-locate_example : Shrunk 150 two_extents (truncate_metadata 150 two_extents)
truncate-locate_example = truncate-locate 150 two_extents two_extents-AllBounded (omega arith)
