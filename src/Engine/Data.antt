-- ===== src/Engine/Data.antt =====
-- src/tx_engine.rs: the contents of a file, in the log, and the extents that find them.
pub mod Loop
pub mod Bounds
pub mod Fresh
pub mod Hidden
pub mod Write
use dbfs.Prelude.{
  ℕ, zero, suc, ◌+◌, ◌-◌, min, max, true, false, ◌&&◌, Option, none, some, List, [], ◌∷◌, ◌++◌,
  Bytes, length, take, replicate, ltb, leb, if◌then◌else◌,
}
use dbfs.Prelude.Buffer.{overlay}
use dbfs.Prelude.Res
use dbfs.Prelude.Res.{ok, err, panic}
use dbfs.Prelude.Words.{add64, sub64}
use dbfs.Prelude.Act.{◌>>=◌}
use dbfs.Common.Error.{DbfsResult}
use dbfs.Kv.{Kv}
use dbfs.Kv.Cursor.{Cursor}
use dbfs.Store.Tx
use dbfs.Store.Tx.{Tx}
use dbfs.Engine.{Extent, InodeMetadata, find_extent}
use dbfs.Engine.Index.{Serde, Eng, batch_tx, view_tx}
use dbfs.Engine.Inodes.{read_meta, put_meta}
use dbfs.LogManager.{BlockDevice, LogManager, append_data, read_data, crc32}

-- The metadata with the extent of new data, between reading and writing it.
unfoldable pub push_extent : ℕ → Bytes → ℕ → InodeMetadata → InodeMetadata
push_extent offset bytes p_ptr meta = record meta {
  extents =
      meta.extents
      ++ (record {
        logical_off = offset;
        physical_ptr = p_ptr;
        len = length bytes;
        crc = crc32 bytes;
      }
          ∷ []);
  size = max meta.size (add64 offset (length bytes));
}

module _ (K : Kv) (C : Cursor K) (D : BlockDevice) (S : Serde) where
  unfoldable pub append_to_log : Bytes → Eng K C D ℕ
  append_to_log bytes s =
      let out = append_data D bytes s.log_manager in (out.0, record s { log_manager = out.1 })

  unfoldable pub write_file_body : ℕ → ℕ → Bytes → ℕ → Tx K.Db (Unit {0})
  write_file_body ino offset bytes p_ptr =
      Tx.◌>>=◌ (read_meta K C D S ino)
        λ meta. put_meta K C D S ino (push_extent offset bytes p_ptr meta)

  unfoldable pub write_file_transactional : ℕ → ℕ → Bytes → Eng K C D (Unit {0})
  unfolding append_to_log write_file_body
  write_file_transactional ino offset bytes = do
    p_ptr ← append_to_log bytes
    batch_tx K C D (write_file_body ino offset bytes p_ptr)

-- The state of the loop of `read_from_log`.
pub record LogRead : Type 0 where
  pub bytes_read : ℕ
  pub current_offset : ℕ
  pub buf_pos : ℕ
  pub buf : Bytes

module _ (D : BlockDevice) (log : LogManager D) where
  -- The part of a read that lies in one extent. The slice is within the buffer, by the minimum.
  unfoldable pub read_part : Extent → LogRead → DbfsResult LogRead
  unfolding overlay
  read_part e st =
      let off_in_extent = st.current_offset - e.logical_off in
      let len_in_extent = min (e.len - off_in_extent) (length st.buf - st.buf_pos) in
      Res.◌>>=◌ (read_data D (add64 e.physical_ptr off_in_extent) len_in_extent log) λ got.
        ok (record {
          bytes_read = st.bytes_read + len_in_extent;
          current_offset = add64 st.current_offset len_in_extent;
          buf_pos = st.buf_pos + len_in_extent;
          buf = overlay st.buf st.buf_pos (take len_in_extent got.1);
        })

  -- The test of the loop, and the extent that it searches for.
  unfoldable pub next_part : InodeMetadata → LogRead → Option Extent
  next_part meta st =
      if ltb st.buf_pos (length st.buf) && ltb st.current_offset meta.size
      then find_extent st.current_offset meta.extents
      else none

  abbrev pub resume :
      (LogRead → Option (DbfsResult LogRead)) → DbfsResult LogRead → Option (DbfsResult LogRead)
  resume loop (ok st) = loop st
  resume loop (err x) = some (err x)
  resume loop panic = some panic

  unfoldable pub read_next :
      (LogRead → Option (DbfsResult LogRead))
      → LogRead
      → Option Extent
      → Option (DbfsResult LogRead)
  unfolding read_part
  read_next loop st none = some (ok st)
  read_next loop st (some e) = resume loop (read_part e st)

  -- The loop on fuel; `none` means that the fuel ran out.
  unfoldable pub read_parts : ℕ → InodeMetadata → LogRead → Option (DbfsResult LogRead)
  unfolding read_next
  read_parts zero meta st = none
  read_parts (suc fuel) meta st = read_next (read_parts fuel meta) st (next_part meta st)

  abbrev pub outcome : Option (DbfsResult LogRead) → Option (DbfsResult (ℕ × Bytes))
  outcome none = none
  outcome (some r) = some (Res.◌>>=◌ r λ st. ok (st.bytes_read, st.buf))

  -- The count that is returned, and the buffer.
  unfoldable pub read_from_log : InodeMetadata → ℕ → Bytes → Option (DbfsResult (ℕ × Bytes))
  unfolding read_parts
  read_from_log meta offset buf =
      if leb meta.size offset
      then some (ok (0, buf))
      else outcome (
          read_parts (suc (length buf)) meta
            (record { bytes_read = 0; current_offset = offset; buf_pos = 0; buf = buf }))

  -- `buf[from..to].copy_from_slice(bytes)` panics on a range that is not in the buffer.
  unfoldable pub copy_range : ℕ → ℕ → Bytes → Bytes → DbfsResult Bytes
  copy_range from to bytes buf =
      if leb from to && leb to (length buf) then ok (overlay buf from bytes) else panic

  -- The part of an extent that overlaps the request.
  unfoldable pub read_overlap : ℕ → ℕ → Extent → ℕ × Bytes → DbfsResult (ℕ × Bytes)
  unfolding copy_range
  read_overlap offset read_len e (total_read, buf) =
      let extent_end = add64 e.logical_off e.len in
      let request_end = add64 offset read_len in
      let overlap_start = max e.logical_off offset in
      let overlap_end = min extent_end request_end in
      let buf_offset = overlap_start - offset in
      let copy_len = sub64 overlap_end overlap_start in
      let buf_end = add64 buf_offset copy_len in
      let copied =
        Res.◌>>=◌ (read_data D (add64 e.physical_ptr (overlap_start - e.logical_off)) copy_len log)
          λ got.
            let temp_buf = overlay (replicate copy_len 0) 0 got.1 in
            Res.◌>>=◌ (copy_range buf_offset buf_end temp_buf buf)
              λ buf'. ok (max total_read buf_end, buf') in
      if ltb e.logical_off request_end && ltb offset extent_end
      then copied
      else ok (total_read, buf)

  -- The loop over the extents, which ends when enough was read.
  unfoldable pub read_extents : ℕ → ℕ → List Extent → ℕ × Bytes → DbfsResult (ℕ × Bytes)
  unfolding read_overlap
  read_extents offset read_len [] st = ok st
  read_extents offset read_len (e ∷ es) st =
      let rest = Res.◌>>=◌ (read_overlap offset read_len e st) (read_extents offset read_len es) in
      if leb read_len st.0 then ok st else rest

  -- What `read_file` does with the metadata that it read.
  unfoldable pub read_contents : InodeMetadata → ℕ → Bytes → DbfsResult (ℕ × Bytes)
  unfolding read_extents
  read_contents meta offset buf =
      if leb meta.size offset
      then ok (0, buf)
      else read_extents offset (min (length buf) (meta.size - offset)) meta.extents (0, buf)

module _ (K : Kv) (C : Cursor K) (D : BlockDevice) (S : Serde) where
  unfoldable pub read_file : ℕ → ℕ → Bytes → Eng K C D (ℕ × Bytes)
  unfolding read_contents
  read_file ino offset buf = do
    meta ← view_tx K C D (read_meta K C D S ino)
    λ s. (read_contents D s.log_manager meta offset buf, s)
