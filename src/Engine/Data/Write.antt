-- ===== src/Engine/Data/Write.antt =====
-- A write through the engine: the data goes to the log, the extent to the index, and both are read
-- back.
use dbfs.Prelude.{ℕ, ◌+◌, ◌^◌, ◌<◌, ◌≡◌, ◌≢◌, refl, sym, ap, ◌∙◌, Bytes, length}
use dbfs.Prelude.Res.{ok}
use dbfs.Kv.{Kv}
use dbfs.Kv.Cursor.{Cursor}
use dbfs.Store.Atomic.{Serves}
use dbfs.Engine.{InodeMetadata}
use dbfs.Engine.Index.{Serde, TransactionEngine}
use dbfs.Engine.Inodes.{get_metadata}
use dbfs.Engine.Inodes.Meta.{
  meta_at, with_meta, read_meta_step, put_meta_step, meta_at-has, meta_at-written, meta_at-others,
}
use dbfs.Engine.Inodes.Edit.{get_metadata-run, get_metadata-at}
use dbfs.Engine.Steps.{batch_tx-ok}
use dbfs.Engine.Data.{
  push_extent, append_to_log, write_file_body, write_file_transactional, read_contents, read_file,
}
use dbfs.Engine.Data.Fresh.{AllClear, push_extent-ReadBack}
use dbfs.LogManager.{BlockDevice, append_data}
use dbfs.LogManager.Append.{Keeps, after_append}

module _ (K : Kv) (C : Cursor K) (D : BlockDevice) (S : Serde) (ino offset : ℕ) (bytes buf : Bytes)
    (s : TransactionEngine K D) (meta : InodeMetadata) where
  -- The write succeeds, the new metadata has the new extent, the data is read back, and no other
  -- inode changed.
  abbrev pub DataWritten : Type 0
  DataWritten =
      let out = write_file_transactional K C D S ino offset bytes s in
      (out.0 ≡ ok tt)
      × (get_metadata K C D S ino out.1
          ≡ (ok (push_extent offset bytes s.log_manager.next_append_pos meta), out.1))
      × (read_file K C D S ino offset buf out.1 ≡ (ok (length bytes, bytes), out.1))
      × ((ino' : ℕ)
          → ino' < 2 ^ 64
          → ino ≢ ino'
          → (get_metadata K C D S ino' out.1).0 ≡ (get_metadata K C D S ino' s).0)

module _ (K : Kv) (C : Cursor K) (D : BlockDevice) (S : Serde) (serves : Serves K) where
  read_file-run :
      (ino offset : ℕ) (buf : Bytes) (s : TransactionEngine K D) {meta : InodeMetadata}
      → meta_at K S ino s.db ≡ ok meta
      → read_file K C D S ino offset buf s ≡ (read_contents D s.log_manager meta offset buf, s)
  unfolding read_file get_metadata
  read_file-run ino offset buf s h = rw (get_metadata-run K C D S serves ino s, h)

  write_file_body-run :
      (ino offset : ℕ) (bytes : Bytes) (p_ptr : ℕ) (d : K.Db) {meta : InodeMetadata}
      → meta_at K S ino d ≡ ok meta
      → write_file_body K C D S ino offset bytes p_ptr d
        ≡ ok (tt, with_meta K S ino (push_extent offset bytes p_ptr meta) d)
  unfolding write_file_body
  write_file_body-run ino offset bytes p_ptr d {meta} h = rw (
    read_meta_step K S C D ino d,
    h,
    put_meta_step K S C D ino (push_extent offset bytes p_ptr meta) d (meta_at-has K S ino d h),
  )

  module _ (keeps : Keeps D) (ino offset : ℕ) (bytes : Bytes) (s : TransactionEngine K D)
      {meta : InodeMetadata} (at : meta_at K S ino s.db ≡ ok meta) where
    after_write : TransactionEngine K D
    after_write = record {
      db = with_meta K S ino (push_extent offset bytes s.log_manager.next_append_pos meta) s.db;
      log_manager = (append_data D bytes s.log_manager).1;
    }

    write_file_transactional-run :
        write_file_transactional K C D S ino offset bytes s ≡ (ok tt, after_write)
    unfolding write_file_transactional append_to_log after_write
    write_file_transactional-run =
        let pos = s.log_manager.next_append_pos in
        rw (after_append D keeps bytes s.log_manager) (
          batch_tx-ok K C D serves (write_file_body K C D S ino offset bytes pos) _
            (write_file_body-run ino offset bytes pos s.db at))

  -- In a database that serves and on a device that keeps what was written, for an inode whose
  -- metadata is read, and data of at least one byte for a part of the file where no extent lies, all
  -- within `2 ^ 64`: the write succeeds, the new metadata has the new extent, a read into a buffer of
  -- the data's length gives the data, and no other inode's metadata changed.
  pub write_file_transactional-read_file :
      Keeps D
      → (ino offset : ℕ) (bytes buf : Bytes) (s : TransactionEngine K D) {meta : InodeMetadata}
      → get_metadata K C D S ino s ≡ (ok meta, s)
      → ino < 2 ^ 64
      → 0 < length bytes
      → offset + length bytes < 2 ^ 64
      → s.log_manager.next_append_pos < 2 ^ 64
      → length buf ≡ length bytes
      → AllClear offset (offset + length bytes) meta.extents
      → DataWritten K C D S ino offset bytes buf s meta
  unfolding after_write
  write_file_transactional-read_file keeps ino offset bytes buf s {meta} found fits pos end pos_fits
        same_length clear =
      let at : meta_at K S ino s.db ≡ ok meta =
        get_metadata-at K C D S serves ino s (ap (λ out. out.0) found) in
      let meta' = push_extent offset bytes s.log_manager.next_append_pos meta in
      let s' = after_write keeps ino offset bytes s at in
      let written : meta_at K S ino s'.db ≡ ok meta' =
        meta_at-written K S ino meta' s.db (meta_at-has K S ino s.db at) in
      let (contents, log) =
        push_extent-ReadBack D keeps s.log_manager meta offset bytes buf pos end pos_fits
          same_length clear in
      rw (write_file_transactional-run keeps ino offset bytes s at) (
        refl,
        get_metadata-run K C D S serves ino s' ∙ ap (λ v. (v, s')) written,
        read_file-run ino offset buf s' written ∙ ap (λ v. (v, s')) contents,
        λ ino' f ne.
            ap (λ out. out.0) (get_metadata-run K C D S serves ino' s')
            ∙ meta_at-others K S ino meta' s.db ino' fits f ne
            ∙ ap (λ out. out.0) (sym (get_metadata-run K C D S serves ino' s)),
      )
