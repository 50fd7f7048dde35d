-- ===== src/Engine/Inodes.antt =====
-- src/tx_engine.rs: the operations on inodes, in the bucket `inodes`.
pub mod Meta
pub mod Edit
pub mod Allocate
pub mod Delete
use dbfs.Prelude.{ℕ, List, [], ◌∷◌, Bytes, ltb, if◌then◌else◌}
use dbfs.Prelude.Res
use dbfs.Prelude.Res.{Res, ok, err, panic, ok_or}
use dbfs.Prelude.Words.{pos, add64}
use dbfs.Bytes.{be_bytes}
use dbfs.Common.Error.{DbfsResult, io}
use dbfs.Kv.{Kv}
use dbfs.Kv.Cursor.{Cursor}
use dbfs.Store.Tx.{Tx, pure, lift, ◌>>=◌, ◌>>◌, or_err, delete_bucket, put, delete}
use dbfs.Engine.{InodeMetadata, truncate_metadata}
use dbfs.LogManager.{BlockDevice}
use dbfs.Engine.Index.{
  Serde, inodes, dir_bucket, number_or_other, Eng, batch_tx, view_tx, inodes_bucket,
  value_or_missing,
}

-- The loop of `allocate_inode` over the keys.
unfoldable pub greatest_inode : ℕ → List (Bytes × Bytes) → DbfsResult ℕ
greatest_inode max_ino [] = ok max_ino
greatest_inode max_ino ((key, v) ∷ ps) =
    Res.◌>>=◌ (number_or_other key)
      λ ino. greatest_inode (if ltb max_ino ino then ino else max_ino) ps

module _ (K : Kv) (C : Cursor K) (D : BlockDevice) where
  open K use {Db}

  abbrev forgiven : Db → DbfsResult (Unit {0} × Db) → DbfsResult (Unit {0} × Db)
  forgiven d (ok (u, d')) = ok (tt, d')
  forgiven d (err e) = ok (tt, d)
  forgiven d panic = panic

  -- `let _ = tx.delete_bucket(name)`: a failure is ignored.
  unfoldable pub try_delete_bucket : Bytes → Tx Db (Unit {0})
  try_delete_bucket b d = forgiven d (delete_bucket K b d)

  unfoldable pub delete_inode_body : ℕ → Tx Db (Unit {0})
  delete_inode_body ino = do
    inodes_bucket K
    or_err io (delete K inodes (be_bytes 8 ino))
    try_delete_bucket (dir_bucket ino)

  unfoldable pub delete_inode : ℕ → Eng K C D (Unit {0})
  unfolding delete_inode_body
  delete_inode ino = batch_tx K C D (delete_inode_body ino)

module _ (K : Kv) (C : Cursor K) (D : BlockDevice) (S : Serde) where
  open K use {Db}

  -- `bucket.put(ino.to_be_bytes(), serialize(meta)?)?`
  abbrev pub put_meta : ℕ → InodeMetadata → Tx Db (Unit {0})
  put_meta ino meta = do v ← lift (S.serialize meta); put K inodes (be_bytes 8 ino) v

  -- The metadata of an inode, read and deserialised.
  abbrev pub read_meta : ℕ → Tx Db InodeMetadata
  read_meta ino = do
    inodes_bucket K
    v ← value_or_missing K inodes (be_bytes 8 ino)
    lift (S.deserialize v)

  abbrev pub new_metadata : ℕ → ℕ → InodeMetadata
  new_metadata ino mode = record {
    ino = ino;
    size = 0;
    mode = mode;
    nlink = 1;
    extents = [];
    atime = pos 0;
    mtime = pos 0;
  }

  unfoldable pub allocate_inode_body : ℕ → Tx Db ℕ
  allocate_inode_body mode = do
    inodes_bucket K
    max_ino ← λ d. lift (greatest_inode 1 (C.pairs inodes d)) d
    put_meta (add64 max_ino 1) (new_metadata (add64 max_ino 1) mode)
    pure (add64 max_ino 1)

  unfoldable pub allocate_inode : ℕ → Eng K C D ℕ
  unfolding allocate_inode_body
  allocate_inode mode = batch_tx K C D (allocate_inode_body mode)

  unfoldable pub update_metadata_body : InodeMetadata → Tx Db (Unit {0})
  update_metadata_body meta = do inodes_bucket K; put_meta meta.ino meta

  unfoldable pub update_metadata : InodeMetadata → Eng K C D (Unit {0})
  unfolding update_metadata_body
  update_metadata meta = batch_tx K C D (update_metadata_body meta)

  unfoldable pub get_metadata : ℕ → Eng K C D InodeMetadata
  get_metadata ino = view_tx K C D (read_meta ino)

  unfoldable pub truncate_file_body : ℕ → ℕ → Tx Db (Unit {0})
  unfolding truncate_metadata
  truncate_file_body ino new_size = do
    meta ← read_meta ino
    put_meta ino (truncate_metadata new_size meta)

  unfoldable pub truncate_file : ℕ → ℕ → Eng K C D (Unit {0})
  unfolding truncate_file_body
  truncate_file ino new_size = batch_tx K C D (truncate_file_body ino new_size)
