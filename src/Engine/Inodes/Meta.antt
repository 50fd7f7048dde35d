-- ===== src/Engine/Inodes/Meta.antt =====
-- The metadata of the inodes in the contents of the database, and the steps that read and write it.
use dbfs.Prelude.{
  ℕ, ◌^◌, ◌<◌, ◌≡◌, ◌≢◌, refl, true, false, Option, none, some, Bytes, same, same_refl, same-ne,
  if◌then◌else◌, arith,
}
use dbfs.Prelude.Res.{ok, err}
use dbfs.Bytes.{be_bytes}
use dbfs.Bytes.BigEndian.{be_bytes-injective}
use dbfs.Common.Error.{DbfsResult, not_found}
use dbfs.Kv.{Kv}
use dbfs.Kv.Cursor.{Cursor}
use dbfs.Store.Laws.{get_bucket_step, put_at, with_db}
use dbfs.Store.Tx.{get_kv}
use dbfs.Engine.{InodeMetadata}
use dbfs.Engine.Index.{Serde, inodes, dir_bucket}
use dbfs.Engine.Inodes.{read_meta, put_meta}
use dbfs.Engine.Dentries.Lookup.{
  entry_at, with_dentry, without_dentry, has-with_dentry, get_kv-with_dentry, dir_bucket-inodes,
}
use dbfs.LogManager.{BlockDevice}

pub inodes-dir_bucket : (dir : ℕ) → same inodes (dir_bucket dir) ≡ false
unfolding dir_bucket
inodes-dir_bucket dir = refl

module _ (K : Kv) (S : Serde) where
  open K use {Db}

  abbrev meta_found : Option Bytes → DbfsResult InodeMetadata
  meta_found none = err not_found
  meta_found (some v) = S.deserialize v

  -- What is read for an inode.
  abbrev pub meta_at : ℕ → Db → DbfsResult InodeMetadata
  meta_at ino d =
      if K.has inodes d then meta_found (K.get_kv inodes (be_bytes 8 ino) d) else err not_found

  -- The contents with the metadata of an inode.
  abbrev pub with_meta : ℕ → InodeMetadata → Db → Db
  with_meta ino meta d = K.with_kv inodes (be_bytes 8 ino) (S.serializes meta).0 d

  module _ (C : Cursor K) (D : BlockDevice) where
    pub read_meta_step : (ino : ℕ) (d : Db) → read_meta K C D S ino d ≡ with_db K d (meta_at ino d)
    unfolding get_kv
    read_meta_step ino d = rw (get_bucket_step K inodes d) (ground arith)

    pub put_meta_step :
        (ino : ℕ) (meta : InodeMetadata) (d : Db)
        → K.has inodes d ≡ true
        → put_meta K C D S ino meta d ≡ ok (tt, with_meta ino meta d)
    put_meta_step ino meta d there =
        rw ((S.serializes meta).1, put_at K inodes (be_bytes 8 ino) (S.serializes meta).0 d there)

  -- A read that succeeds has found the bucket.
  pub meta_at-has :
      (ino : ℕ) (d : Db) {meta : InodeMetadata} → meta_at ino d ≡ ok meta → K.has inodes d ≡ true
  meta_at-has ino d h = ground arith

  module _ (ino : ℕ) (meta : InodeMetadata) (d : Db) where
    pub meta_at-written : K.has inodes d ≡ true → meta_at ino (with_meta ino meta d) ≡ ok meta
    meta_at-written there =
        simp (
          K.has-with_kv,
          there,
          K.get_kv-with_kv,
          same_refl,
          S.read_back meta (S.serializes meta).1,
        )

    pub meta_at-others :
        (ino' : ℕ)
        → ino < 2 ^ 64
        → ino' < 2 ^ 64
        → ino ≢ ino'
        → meta_at ino' (with_meta ino meta d) ≡ meta_at ino' d
    meta_at-others ino' f f' ne =
        let e : same (be_bytes 8 ino) (be_bytes 8 ino') ≡ false =
          same-ne (be_bytes 8 ino) (be_bytes 8 ino')
            (λ h. ne (be_bytes-injective 8 ino ino' f f' h)) in
        simp (K.has-with_kv, K.get_kv-with_kv, e)

    pub entry_at-with_meta :
        (dir : ℕ) (name : Bytes)
        → entry_at K dir name (with_meta ino meta d) ≡ entry_at K dir name d
    entry_at-with_meta dir name = simp (K.has-with_kv, K.get_kv-with_kv, inodes-dir_bucket dir)

  -- An entry of a directory touches no metadata.
  pub meta_at-with_dentry :
      (ino dir : ℕ) (name : Bytes) (child : ℕ) (d : Db)
      → meta_at ino (with_dentry K dir name child d) ≡ meta_at ino d
  meta_at-with_dentry ino dir name child d = rw (
    has-with_dentry K dir name d child inodes (dir_bucket-inodes dir),
    get_kv-with_dentry K dir name d child inodes (be_bytes 8 ino) (dir_bucket-inodes dir),
  )

  pub meta_at-without_dentry :
      (ino dir : ℕ) (name : Bytes) (d : Db)
      → meta_at ino (without_dentry K dir name d) ≡ meta_at ino d
  meta_at-without_dentry ino dir name d =
      simp (K.has-without_kv, K.get_kv-without_kv, dir_bucket-inodes dir)
