-- ===== src/Tests/Mounted.antt =====
-- The engine on a database of lists and a device in memory: a root directory with a file and a
-- serialisation that is a list of the metadata's numbers.
use dbfs.Prelude.{ℕ, zero, suc, ◌++◌, ◌≡◌, refl, List, [], ◌∷◌, Bytes, codes}
use dbfs.Prelude.Res.{ok, err, panic}
use dbfs.Prelude.Words.{ℤ, pos, negsuc}
use dbfs.Common.Error.{DbfsResult, other}
use dbfs.Bytes.{be_bytes}
use dbfs.Kv.Cursor.Listed.{Lists, listed}
use dbfs.Store.Atomic.{Serves}
use dbfs.Engine.{Extent, InodeMetadata}
use dbfs.Engine.Index.{Serde, TransactionEngine, inodes}
use dbfs.Tests.LogManager.{tape, blank}

abbrev extents_bytes : List Extent → Bytes
extents_bytes [] = []
extents_bytes (e ∷ es) = e.logical_off ∷ e.physical_ptr ∷ e.len ∷ e.crc ∷ extents_bytes es

abbrev with_extent : Extent → DbfsResult (List Extent) → DbfsResult (List Extent)
with_extent e (ok es) = ok (e ∷ es)
with_extent e (err x) = err x
with_extent e panic = panic

abbrev bytes_extents : Bytes → DbfsResult (List Extent)
bytes_extents [] = ok []
bytes_extents (a ∷ []) = err other
bytes_extents (a ∷ b ∷ []) = err other
bytes_extents (a ∷ b ∷ c ∷ []) = err other
bytes_extents (a ∷ b ∷ c ∷ d ∷ rest) =
    with_extent (record { logical_off = a; physical_ptr = b; len = c; crc = d })
      (bytes_extents rest)

-- The sign and the size of a time.
abbrev cell_bytes : ℤ → Bytes
cell_bytes (pos n) = 0 ∷ n ∷ []
cell_bytes (negsuc n) = 1 ∷ n ∷ []

abbrev bytes_cell : ℕ → ℕ → ℤ
bytes_cell zero n = pos n
bytes_cell (suc s) n = negsuc n

abbrev meta_bytes : InodeMetadata → Bytes
meta_bytes m =
    m.ino
    ∷ m.size
    ∷ m.mode
    ∷ m.nlink
    ∷ (cell_bytes m.atime ++ (cell_bytes m.mtime ++ extents_bytes m.extents))

abbrev with_extents : ℕ → ℕ → ℕ → ℕ → ℤ → ℤ → DbfsResult (List Extent) → DbfsResult InodeMetadata
with_extents a b c d e f (ok es) =
    ok (record { ino = a; size = b; mode = c; nlink = d; atime = e; mtime = f; extents = es })
with_extents a b c d e f (err x) = err x
with_extents a b c d e f panic = panic

abbrev bytes_meta : Bytes → DbfsResult InodeMetadata
bytes_meta (a ∷ b ∷ c ∷ d ∷ s ∷ e ∷ t ∷ f ∷ rest) =
    with_extents a b c d (bytes_cell s e) (bytes_cell t f) (bytes_extents rest)
bytes_meta _ = err other

bytes_extents_lem : (es : List Extent) → bytes_extents (extents_bytes es) ≡ ok es
bytes_extents_lem [] = refl
bytes_extents_lem (e ∷ es) = rw (bytes_extents_lem es)

bytes_meta_lem : (m : InodeMetadata) → bytes_meta (meta_bytes m) ≡ ok m
bytes_meta_lem m = by_times m.atime m.mtime
  where
    by_times :
        (a t : ℤ)
        → bytes_meta (meta_bytes (record m { atime = a; mtime = t }))
          ≡ ok (record m { atime = a; mtime = t })
    by_times (pos a) (pos t) = rw (bytes_extents_lem m.extents)
    by_times (pos a) (negsuc t) = rw (bytes_extents_lem m.extents)
    by_times (negsuc a) (pos t) = rw (bytes_extents_lem m.extents)
    by_times (negsuc a) (negsuc t) = rw (bytes_extents_lem m.extents)

pub same_bytes :
    (m : InodeMetadata) {v : Bytes}
    → ◌≡◌ {A = DbfsResult Bytes} (ok (meta_bytes m)) (ok v)
    → bytes_meta v ≡ ok m
same_bytes m {v} h = let e : meta_bytes m ≡ v = cc in rw (← e) (bytes_meta_lem m)

abbrev pub numbers_serde : Serde
numbers_serde = record {
  serialize = λ m. ok (meta_bytes m);
  deserialize = bytes_meta;
  serializes = λ m. (meta_bytes m, refl);
  read_back = λ m {v} h. same_bytes m h;
}

pub listed-Serves : Serves listed
listed-Serves = record { begins = λ w d. refl; commits = λ d. refl }

abbrev pub root_meta : InodeMetadata
root_meta = record {
  ino = 1;
  size = 0;
  mode = 0o040755;
  nlink = 2;
  extents = [];
  atime = pos 0;
  mtime = pos 0;
}

-- A file with the first hundred bytes in one extent.
abbrev pub file_meta : InodeMetadata
file_meta = record {
  ino = 2;
  size = 100;
  mode = 0o100644;
  nlink = 1;
  extents = record { logical_off = 0; physical_ptr = 0; len = 100; crc = 0 } ∷ [];
  atime = pos 0;
  mtime = pos 0;
}

abbrev pub mounted_db : Lists
mounted_db = record {
  names = inodes ∷ codes "dir_1" ∷ [];
  cells =
      record { bucket = inodes; key = be_bytes 8 1; value = meta_bytes root_meta }
      ∷ record { bucket = inodes; key = be_bytes 8 2; value = meta_bytes file_meta }
      ∷ record { bucket = codes "dir_1"; key = codes "note"; value = be_bytes 8 2 }
      ∷ [];
}

abbrev pub mounted : TransactionEngine listed tape
mounted = record { db = mounted_db; log_manager = blank }
