-- ===== src/Engine/Data/Fresh.antt =====
-- Data that is written where a file has none yet is read back by both readers.
use dbfs.Prelude.{
  ℕ, zero, suc, ◌+◌, ◌-◌, ◌^◌, ◌≤◌, ◌<◌, min, max, ◌≡◌, ap, ◌∙◌, true, false, ◌&&◌, ◌⊎◌, none, some,
  List, [], ◌∷◌, ◌++◌, Bytes, length, replicate, length-replicate, take-all, ltb, leb, arith,
}
use dbfs.Prelude.Buffer.{overlay-whole}
use dbfs.Prelude.Res
use dbfs.Prelude.Res.{ok, err, panic}
use dbfs.Prelude.Words.{add64, sub64}
use dbfs.Common.Error.{DbfsResult}
use dbfs.Engine.{Extent, InodeMetadata, holds, find_extent}
use dbfs.Engine.Data.{
  LogRead, push_extent, next_part, resume, read_part, read_parts, outcome, read_from_log,
  copy_range, read_overlap, read_extents, read_contents,
}
use dbfs.Engine.Data.Loop.{read_parts-stop, read_parts-part}
use dbfs.LogManager.{BlockDevice, LogManager, append_data, read_data, crc32}
use dbfs.LogManager.Append.{Keeps, after_append}

-- No extent lies in a part of the file.
unfoldable pub AllClear : ℕ → ℕ → List Extent → Type 0
AllClear from to [] = Unit {0}
AllClear from to (e ∷ es) =
    ((to ≤ e.logical_off) ⊎ (add64 e.logical_off e.len ≤ from)) × AllClear from to es

-- The extent behind the others is found where no other holds the offset.
find_extent-last :
    (offset to : ℕ) (es : List Extent) (e : Extent)
    → offset < to
    → AllClear offset to es
    → holds offset e ≡ true
    → find_extent offset (es ++ (e ∷ [])) ≡ some e
unfolding AllClear find_extent holds
find_extent-last offset to [] e less clear h = rw h
find_extent-last offset to (x ∷ xs) e less (here, clear) h =
    ground (arith, find_extent-last offset to xs e less clear h)

module _ (D : BlockDevice) (log : LogManager D) (offset read_len : ℕ) where
  read_overlap-clear :
      (e : Extent) (buf : Bytes)
      → offset + read_len < 2 ^ 64
      → (offset + read_len ≤ e.logical_off) ⊎ (add64 e.logical_off e.len ≤ offset)
      → read_overlap D log offset read_len e (0, buf) ≡ ok (0, buf)
  unfolding read_overlap
  read_overlap-clear e buf fits clear =
      let outside : (ltb e.logical_off (add64 offset read_len)
            && ltb offset (add64 e.logical_off e.len))
          ≡ false =
        ground arith in
      rw outside

  -- One more extent, while nothing was read.
  read_extents-next :
      (e : Extent) (es : List Extent) (buf : Bytes)
      → 0 < read_len
      → read_extents D log offset read_len (e ∷ es) (0, buf)
        ≡ Res.◌>>=◌
            (read_overlap D log offset read_len e (0, buf))
            (read_extents D log offset read_len es)
  unfolding read_extents
  read_extents-next e es buf pos = let more : leb read_len 0 ≡ false = ground arith in rw more

  -- The extents before the new one are passed over.
  read_extents-clear :
      (es : List Extent) (e : Extent) (buf : Bytes)
      → offset + read_len < 2 ^ 64
      → 0 < read_len
      → AllClear offset (offset + read_len) es
      → read_extents D log offset read_len (es ++ (e ∷ [])) (0, buf)
        ≡ Res.◌>>=◌ (read_overlap D log offset read_len e (0, buf)) ok
  unfolding AllClear read_extents
  read_extents-clear [] e buf fits pos clear = read_extents-next e [] buf pos
  read_extents-clear (x ∷ xs) e buf fits pos (here, clear) =
      rw (read_extents-next x (xs ++ (e ∷ [])) buf pos, read_overlap-clear x buf fits here)
        (read_extents-clear xs e buf fits pos clear)

module _ (D : BlockDevice) (keeps : Keeps D) (log : LogManager D) (meta : InodeMetadata)
    (offset : ℕ) (bytes buf : Bytes) where
  -- The state of the file behind a write of `bytes` at `offset`.
  abbrev log_after : LogManager D
  log_after = (append_data D bytes log).1

  abbrev meta_after : InodeMetadata
  meta_after = push_extent offset bytes log.next_append_pos meta

  abbrev new_extent : Extent
  new_extent = record {
    logical_off = offset;
    physical_ptr = log.next_append_pos;
    len = length bytes;
    crc = crc32 bytes;
  }

  read_appended :
      read_data D log.next_append_pos (length bytes) log_after ≡ ok (length bytes, bytes)
  unfolding read_data
  read_appended =
      ap
        (λ (out : DbfsResult ℕ × LogManager D).
          read_data D log.next_append_pos (length bytes) out.1)
        (after_append D keeps bytes log)
      ∙ (keeps.gives_back log.next_append_pos bytes log.device)

  overlap_read :
      0 < length bytes
      → offset + length bytes < 2 ^ 64
      → log.next_append_pos < 2 ^ 64
      → length buf ≡ length bytes
      → read_overlap D log_after offset (length bytes) new_extent (0, buf)
        ≡ ok (length bytes, bytes)
  unfolding read_overlap copy_range
  overlap_read pos fits pos_fits same_length =
      let end : add64 offset (length bytes) ≡ offset + length bytes = omega arith in
      let inside : (ltb offset (offset + length bytes) && ltb offset (offset + length bytes))
          ≡ true =
        ground arith in
      let from : max offset offset ≡ offset = omega arith in
      let to : min (offset + length bytes) (offset + length bytes) ≡ offset + length bytes =
        omega arith in
      let n : sub64 (offset + length bytes) offset ≡ length bytes = omega arith in
      let z : offset - offset ≡ 0 = omega arith in
      let at : add64 log.next_append_pos 0 ≡ log.next_append_pos = omega arith in
      let buf_end : add64 0 (length bytes) ≡ length bytes = omega arith in
      let in_range : (leb 0 (length bytes) && leb (length bytes) (length buf)) ≡ true =
        ground arith in
      let count : max 0 (length bytes) ≡ length bytes = omega arith in
      rw (
        end,
        inside,
        from,
        to,
        n,
        z,
        at,
        read_appended,
        buf_end,
        in_range,
        count,
        overlay-whole (replicate (length bytes) 0) bytes (length-replicate (length bytes) 0),
        overlay-whole buf bytes same_length,
      )

  -- How both readers read the new data into a buffer of its length.
  abbrev pub ReadBack : Type 0
  ReadBack =
      (read_contents D log_after meta_after offset buf ≡ ok (length bytes, bytes))
      × (read_from_log D log_after meta_after offset buf ≡ some (ok (length bytes, bytes)))

  contents_read :
      0 < length bytes
      → offset + length bytes < 2 ^ 64
      → log.next_append_pos < 2 ^ 64
      → length buf ≡ length bytes
      → AllClear offset (offset + length bytes) meta.extents
      → read_contents D log_after meta_after offset buf ≡ ok (length bytes, bytes)
  unfolding read_contents push_extent
  contents_read pos fits pos_fits same_length clear =
      let end : add64 offset (length bytes) ≡ offset + length bytes = omega arith in
      let inside : leb (max meta.size (offset + length bytes)) offset ≡ false = ground arith in
      let asked : min (length buf) (max meta.size (offset + length bytes) - offset) ≡ length bytes =
        omega arith in
      rw (
        end,
        inside,
        asked,
        read_extents-clear D log_after offset (length bytes) meta.extents new_extent buf fits pos
            clear,
        overlap_read pos fits pos_fits same_length,
      )

  start : LogRead
  start = record { bytes_read = 0; current_offset = offset; buf_pos = 0; buf = buf }

  done : LogRead
  done = record {
    bytes_read = length bytes;
    current_offset = offset + length bytes;
    buf_pos = length bytes;
    buf = bytes;
  }

  part_read :
      0 < length bytes
      → offset + length bytes < 2 ^ 64
      → log.next_append_pos < 2 ^ 64
      → length buf ≡ length bytes
      → read_part D log_after new_extent start ≡ ok done
  unfolding read_part start done
  part_read pos fits pos_fits same_length =
      let z : offset - offset ≡ 0 = omega arith in
      let n : min (length bytes - 0) (length buf - 0) ≡ length bytes = omega arith in
      let at : add64 log.next_append_pos 0 ≡ log.next_append_pos = omega arith in
      let end : add64 offset (length bytes) ≡ offset + length bytes = omega arith in
      let count : 0 + length bytes ≡ length bytes = omega arith in
      rw (
        z,
        n,
        at,
        read_appended,
        end,
        count,
        take-all (length bytes) bytes (omega arith),
        overlay-whole buf bytes same_length,
      )

  new_holds : 0 < length bytes → offset + length bytes < 2 ^ 64 → holds offset new_extent ≡ true
  unfolding holds
  new_holds pos fits = ground arith

  first_part :
      0 < length bytes
      → offset + length bytes < 2 ^ 64
      → length buf ≡ length bytes
      → AllClear offset (offset + length bytes) meta.extents
      → next_part D log_after meta_after start ≡ some new_extent
  unfolding next_part push_extent start
  first_part pos fits same_length clear =
      let end : add64 offset (length bytes) ≡ offset + length bytes = omega arith in
      let more : (ltb 0 (length buf) && ltb offset (max meta.size (offset + length bytes))) ≡ true =
        ground arith in
      rw (end, more)
        (find_extent-last offset (offset + length bytes) meta.extents new_extent (omega arith) clear
          (new_holds pos fits))

  no_more : next_part D log_after meta_after done ≡ none
  unfolding next_part done
  no_more = let full : ltb (length bytes) (length bytes) ≡ false = ground arith in rw full

  loop_run :
      0 < length bytes
      → offset + length bytes < 2 ^ 64
      → log.next_append_pos < 2 ^ 64
      → length buf ≡ length bytes
      → AllClear offset (offset + length bytes) meta.extents
      → read_parts D log_after (suc (length buf)) meta_after start ≡ some (ok done)
  loop_run pos fits pos_fits same_length clear =
      read_parts-part D log_after meta_after (length buf) start new_extent
        (first_part pos fits same_length clear)
      ∙ ap (resume D log_after (read_parts D log_after (length buf) meta_after))
          (part_read pos fits pos_fits same_length)
      ∙ rest (length buf) (omega arith)
    where
      rest : (n : ℕ) → 0 < n → read_parts D log_after n meta_after done ≡ some (ok done)
      rest zero h = absurd (omega arith)
      rest (suc n) h = read_parts-stop D log_after meta_after n done no_more

  log_read :
      0 < length bytes
      → offset + length bytes < 2 ^ 64
      → log.next_append_pos < 2 ^ 64
      → length buf ≡ length bytes
      → AllClear offset (offset + length bytes) meta.extents
      → read_from_log D log_after meta_after offset buf ≡ some (ok (length bytes, bytes))
  unfolding read_from_log push_extent start done
  log_read pos fits pos_fits same_length clear =
      let inside : leb (max meta.size (add64 offset (length bytes))) offset ≡ false =
        let end : add64 offset (length bytes) ≡ offset + length bytes = omega arith in
        rw end (ground arith) in
      rw inside (ap (outcome D log_after) (loop_run pos fits pos_fits same_length clear))

  -- On a device that keeps what was written, data of at least one byte that is appended to the log
  -- and given to a part of the file where no extent lies, all within `2 ^ 64`: both readers then read
  -- it back into a buffer of its length.
  pub push_extent-ReadBack :
      0 < length bytes
      → offset + length bytes < 2 ^ 64
      → log.next_append_pos < 2 ^ 64
      → length buf ≡ length bytes
      → AllClear offset (offset + length bytes) meta.extents
      → ReadBack
  push_extent-ReadBack pos fits pos_fits same_length clear = (
    contents_read pos fits pos_fits same_length clear,
    log_read pos fits pos_fits same_length clear,
  )
