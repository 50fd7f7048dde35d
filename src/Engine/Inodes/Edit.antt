-- ===== src/Engine/Inodes/Edit.antt =====
-- The operations on inodes, by the metadata that is read before and after them.
use dbfs.Prelude.{ℕ, ◌^◌, ◌<◌, ◌≡◌, ◌≢◌, refl, sym, ap, ◌∙◌, true, false, Bytes, arith}
use dbfs.Prelude.Res.{ok}
use dbfs.Common.Error.{DbfsResult}
use dbfs.Kv.{Kv}
use dbfs.Kv.Cursor.{Cursor}
use dbfs.Store.Atomic.{Serves}
use dbfs.Engine.{InodeMetadata, truncate_metadata}
use dbfs.Engine.Index.{Serde, TransactionEngine, inodes, view_tx}
use dbfs.Engine.Inodes.{
  get_metadata, update_metadata, update_metadata_body, truncate_file, truncate_file_body,
}
use dbfs.Engine.Inodes.Meta.{
  meta_at, with_meta, read_meta_step, put_meta_step, meta_at-has, meta_at-written, meta_at-others,
  entry_at-with_meta,
}
use dbfs.Engine.Dentries.{lookup_dentry}
use dbfs.Engine.Dentries.Edit.{lookup_dentry-run}
use dbfs.Store.Laws.{get_bucket_at}
use dbfs.Engine.Steps.{batch_tx-ok}
use dbfs.LogManager.{BlockDevice}

module _ (K : Kv) (C : Cursor K) (D : BlockDevice) (S : Serde) where
  -- No metadata but that of `ino` differs between two states, no lookup and no byte of the log.
  abbrev pub OtherInodesSame : ℕ → TransactionEngine K D → TransactionEngine K D → Type 0
  OtherInodesSame ino s s' =
      ((ino' : ℕ)
        → ino' < 2 ^ 64
        → ino ≢ ino'
        → (get_metadata K C D S ino' s').0 ≡ (get_metadata K C D S ino' s).0)
      × ((dir : ℕ) (name : Bytes)
          → (lookup_dentry K C D dir name s').0 ≡ (lookup_dentry K C D dir name s).0)
      × (s'.log_manager ≡ s.log_manager)

  -- The inode has the metadata, and nothing else changed.
  abbrev pub MetaWritten :
      ℕ → InodeMetadata → TransactionEngine K D → TransactionEngine K D → Type 0
  MetaWritten ino meta s s' =
      (get_metadata K C D S ino s' ≡ (ok meta, s')) × OtherInodesSame ino s s'

module _ (K : Kv) (C : Cursor K) (D : BlockDevice) (S : Serde) (serves : Serves K) where
  pub get_metadata-run :
      (ino : ℕ) (s : TransactionEngine K D) → get_metadata K C D S ino s ≡ (meta_at K S ino s.db, s)
  unfolding get_metadata view_tx
  get_metadata-run ino s =
      rw (serves.begins false s.db) (ground (arith, read_meta_step K S C D ino s.db))

  pub get_metadata-at :
      (ino : ℕ) (s : TransactionEngine K D) {r : DbfsResult InodeMetadata}
      → (get_metadata K C D S ino s).0 ≡ r
      → meta_at K S ino s.db ≡ r
  get_metadata-at ino s h = sym (ap (λ out. out.0) (get_metadata-run ino s)) ∙ h

  same_reads :
      (s s' : TransactionEngine K D) (ino : ℕ)
      → meta_at K S ino s'.db ≡ meta_at K S ino s.db
      → (get_metadata K C D S ino s').0 ≡ (get_metadata K C D S ino s).0
  same_reads s s' ino e =
      ap (λ out. out.0) (get_metadata-run ino s')
      ∙ e
      ∙ ap (λ out. out.0) (sym (get_metadata-run ino s))

  -- Metadata that was written into the contents.
  pub written :
      (ino : ℕ) (meta : InodeMetadata) (s : TransactionEngine K D)
      → ino < 2 ^ 64
      → K.has inodes s.db ≡ true
      → MetaWritten K C D S ino meta s (record s { db = with_meta K S ino meta s.db })
  written ino meta s fits there =
      let s' : TransactionEngine K D = record s { db = with_meta K S ino meta s.db } in
      (
        get_metadata-run ino s' ∙ ap (λ v. (v, s')) (meta_at-written K S ino meta s.db there),
        (
          (λ ino' f ne. same_reads s s' ino' (meta_at-others K S ino meta s.db ino' fits f ne)),
          (λ dir name.
              ap (λ out. out.0) (lookup_dentry-run K C D serves dir name s')
              ∙ entry_at-with_meta K S ino meta s.db dir name
              ∙ ap (λ out. out.0) (sym (lookup_dentry-run K C D serves dir name s))),
          refl,
        ),
      )

  pub update_metadata-run :
      (meta : InodeMetadata) (s : TransactionEngine K D)
      → K.has inodes s.db ≡ true
      → update_metadata K C D S meta s ≡ (ok tt, record s { db = with_meta K S meta.ino meta s.db })
  unfolding update_metadata update_metadata_body
  update_metadata-run meta s there =
      batch_tx-ok K C D serves _ s
        (rw (get_bucket_at K inodes s.db there, put_meta_step K S C D meta.ino meta s.db there))

  pub truncate_file-run :
      (ino new_size : ℕ) (s : TransactionEngine K D) {meta : InodeMetadata}
      → meta_at K S ino s.db ≡ ok meta
      → truncate_file K C D S ino new_size s
        ≡ (ok tt, record s { db = with_meta K S ino (truncate_metadata new_size meta) s.db })
  unfolding truncate_file truncate_file_body
  truncate_file-run ino new_size s {meta} h = batch_tx-ok K C D serves _ s (
      rw (
        read_meta_step K S C D ino s.db,
        h,
        put_meta_step K S C D ino (truncate_metadata new_size meta) s.db
            (meta_at-has K S ino s.db h),
      ))

  -- In a database that serves, with an inode number below `2 ^ 64` whose metadata is read: a change of
  -- the size succeeds, the inode has the metadata that `truncate_metadata` makes of the old, and every
  -- other inode, every directory entry and the log are as before.
  pub truncate_file-MetaWritten :
      (ino new_size : ℕ) (s : TransactionEngine K D) {meta : InodeMetadata}
      → ino < 2 ^ 64
      → get_metadata K C D S ino s ≡ (ok meta, s)
      → ((truncate_file K C D S ino new_size s).0 ≡ ok tt)
        × MetaWritten K C D S ino
            (truncate_metadata new_size meta)
            s
            (truncate_file K C D S ino new_size s).1
  truncate_file-MetaWritten ino new_size s {meta} fits h =
      let at : meta_at K S ino s.db ≡ ok meta = get_metadata-at ino s (ap (λ out. out.0) h) in
      rw (truncate_file-run ino new_size s at)
        (refl, written ino (truncate_metadata new_size meta) s fits (meta_at-has K S ino s.db at))
