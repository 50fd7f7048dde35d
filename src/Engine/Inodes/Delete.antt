-- ===== src/Engine/Inodes/Delete.antt =====
-- What the deletion of an inode leaves.
use dbfs.Prelude.{
  ℕ, ◌^◌, ◌<◌, ◌≡◌, ◌≢◌, sym, ◌∙◌, true, false, some, Bytes, inl, inr, same, same_refl, same-ne,
  same→eq, Option-cases, if◌then◌else◌, arith,
}
use dbfs.Prelude.Res.{ok, err}
use dbfs.Bytes.{be_bytes}
use dbfs.Bytes.BigEndian.{be_bytes-injective}
use dbfs.Common.Error.{DbfsResult, not_found}
use dbfs.Kv.{Kv}
use dbfs.Kv.Cursor.{Cursor}
use dbfs.Store.Atomic.{Serves}
use dbfs.Store.Laws.{get_bucket_at, delete_step, delete_bucket_step}
use dbfs.Engine.{InodeMetadata}
use dbfs.Engine.Index.{Serde, TransactionEngine, inodes, dir_bucket}
use dbfs.Engine.Inodes.{delete_inode, delete_inode_body, try_delete_bucket}
use dbfs.Engine.Inodes.Meta.{meta_at, meta_at-has, inodes-dir_bucket}
use dbfs.Engine.Dentries.Lookup.{entry_at, dir_bucket-ne, dir_bucket-inodes}
use dbfs.Engine.Steps.{batch_tx-ok}
use dbfs.LogManager.{BlockDevice}

module _ (K : Kv) (S : Serde) where
  open K use {Db}

  -- The contents without a bucket, if it is there.
  unfoldable pub without_dir : ℕ → Db → Db
  without_dir ino d = let b = dir_bucket ino in if K.has b d then K.without_bucket b d else d

  abbrev pub without_inode : ℕ → Db → Db
  without_inode ino d = without_dir ino (K.without_kv inodes (be_bytes 8 ino) d)

  module _ (ino : ℕ) (d : Db) where
    has-without_dir :
        (b : Bytes)
        → K.has b (without_dir ino d) ≡ (if same (dir_bucket ino) b then false else K.has b d)
    unfolding without_dir
    has-without_dir b =
        ground (arith, K.has-without_bucket (dir_bucket ino) d b, same→eq (dir_bucket ino) b)

    get_kv-without_dir :
        (b k : Bytes)
        → same (dir_bucket ino) b ≡ false
        → K.get_kv b k (without_dir ino d) ≡ K.get_kv b k d
    unfolding without_dir
    get_kv-without_dir b k ne = ground (arith, K.get_kv-without_bucket (dir_bucket ino) d b k)

  try_delete_step :
      (C : Cursor K) (D : BlockDevice) (ino : ℕ) (d : Db)
      → try_delete_bucket K C D (dir_bucket ino) d ≡ ok (tt, without_dir ino d)
  unfolding try_delete_bucket without_dir
  try_delete_step C D ino d = rw (delete_bucket_step K (dir_bucket ino) d) (ground arith)

  pub delete_inode_body-run :
      (C : Cursor K) (D : BlockDevice) (ino : ℕ) (d : Db) {v : Bytes}
      → K.has inodes d ≡ true
      → K.get_kv inodes (be_bytes 8 ino) d ≡ some v
      → delete_inode_body K C D ino d ≡ ok (tt, without_inode ino d)
  unfolding delete_inode_body
  delete_inode_body-run C D ino d {v} there found = rw (
    get_bucket_at K inodes d there,
    delete_step K inodes (be_bytes 8 ino) d,
    found,
    try_delete_step C D ino (K.without_kv inodes (be_bytes 8 ino) d),
  )

  -- A read that succeeds has found a value.
  pub meta_at-value :
      (ino : ℕ) (d : Db) {meta : InodeMetadata}
      → meta_at K S ino d ≡ ok meta
      → (v : Bytes) × (K.get_kv inodes (be_bytes 8 ino) d ≡ some v)
  meta_at-value ino d {meta} h = elim (Option-cases (K.get_kv inodes (be_bytes 8 ino) d)) [
    | inl e ↦ absurd (none_read (sym h ∙ rw (meta_at-has K S ino d h, e)))
    | inr found ↦ found
  ]
    where
      none_read : ◌≡◌ {A = DbfsResult InodeMetadata} (ok meta) (err not_found) → ⊥
      none_read e = cc

  module _ (ino : ℕ) (d : Db) where
    pub meta_at-deleted : meta_at K S ino (without_inode ino d) ≡ err not_found
    meta_at-deleted =
        simp
          (
            has-without_dir ino (K.without_kv inodes (be_bytes 8 ino) d),
            get_kv-without_dir ino (K.without_kv inodes (be_bytes 8 ino) d) inodes (be_bytes 8 ino)
                (dir_bucket-inodes ino),
            dir_bucket-inodes ino,
            K.has-without_kv,
            K.get_kv-without_kv,
            same_refl,
          )
          (ground arith)

    pub meta_at-without_inode :
        (ino' : ℕ)
        → ino < 2 ^ 64
        → ino' < 2 ^ 64
        → ino ≢ ino'
        → meta_at K S ino' (without_inode ino d) ≡ meta_at K S ino' d
    meta_at-without_inode ino' f f' ne =
        let d' = K.without_kv inodes (be_bytes 8 ino) d in
        let e : same (be_bytes 8 ino) (be_bytes 8 ino') ≡ false =
          same-ne (be_bytes 8 ino) (be_bytes 8 ino')
            (λ h. ne (be_bytes-injective 8 ino ino' f f' h)) in
        simp (
          has-without_dir ino d',
          get_kv-without_dir ino d' inodes (be_bytes 8 ino') (dir_bucket-inodes ino),
          dir_bucket-inodes ino,
          K.has-without_kv,
          K.get_kv-without_kv,
          e,
        )

    pub entry_at-without_inode :
        (dir : ℕ) (name : Bytes)
        → ino < 2 ^ 64
        → dir < 2 ^ 64
        → ino ≢ dir
        → entry_at K dir name (without_inode ino d) ≡ entry_at K dir name d
    entry_at-without_inode dir name f f' ne =
        let d' = K.without_kv inodes (be_bytes 8 ino) d in
        let e = dir_bucket-ne ino dir f f' ne in
        simp (
          has-without_dir ino d',
          get_kv-without_dir ino d' (dir_bucket dir) name e,
          e,
          K.has-without_kv,
          K.get_kv-without_kv,
          inodes-dir_bucket dir,
        )

    -- A directory's entries go with it.
    pub entry_at-deleted_dir :
        (name : Bytes) → entry_at K ino name (without_inode ino d) ≡ err not_found
    entry_at-deleted_dir name =
        simp (has-without_dir ino (K.without_kv inodes (be_bytes 8 ino) d), same_refl)

    pub has-without_inode :
        (b : Bytes)
        → K.has b (without_inode ino d) ≡ (if same (dir_bucket ino) b then false else K.has b d)
    has-without_inode b =
        simp (has-without_dir ino (K.without_kv inodes (be_bytes 8 ino) d) b, K.has-without_kv)

  pub delete_inode-run :
      (C : Cursor K) (D : BlockDevice)
      → Serves K
      → (ino : ℕ) (s : TransactionEngine K D) {meta : InodeMetadata}
      → meta_at K S ino s.db ≡ ok meta
      → delete_inode K C D ino s ≡ (ok tt, record s { db = without_inode ino s.db })
  unfolding delete_inode
  delete_inode-run C D serves ino s h =
      let (v, found) = meta_at-value ino s.db h in
      batch_tx-ok K C D serves (delete_inode_body K C D ino) s
        (delete_inode_body-run C D ino s.db (meta_at-has K S ino s.db h) found)
