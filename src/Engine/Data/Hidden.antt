-- ===== src/Engine/Data/Hidden.antt =====
-- Older extents hide the data of a later write from `read_from_log`.
use dbfs.Prelude.{
  ℕ, zero, suc, ◌+◌, ◌-◌, ◌^◌, ◌≤◌, ◌<◌, min, max, ◌≡◌, refl, sym, ap, ◌∙◌, true, false, ◌&&◌,
  take-all, Bool-cases, inl, inr, none, some, List, [], ◌∷◌, ◌++◌, Bytes, length, ltb, leb, arith,
}
use dbfs.Prelude.Res.{ok, err, panic}
use dbfs.Prelude.Buffer.{overlay-whole}
use dbfs.Prelude.Words.{add64}
use dbfs.Common.Error.{DbfsResult}
use dbfs.Engine.{Extent, InodeMetadata, find_extent}
use dbfs.Engine.Data.{
  LogRead, push_extent, next_part, resume, read_part, read_parts, outcome, read_from_log,
}
use dbfs.Engine.Data.Loop.{find_extent-holds, read_part-Advanced, read_parts-stop, read_parts-part}
use dbfs.LogManager.{BlockDevice, LogManager, append_data, read_data}
use dbfs.LogManager.Append.{Keeps, after_append}

-- The data of every extent lies before a place of the device.
unfoldable pub AllBefore : ℕ → List Extent → Type 0
AllBefore end [] = Unit {0}
AllBefore end (e ∷ es) = (e.physical_ptr + e.len ≤ end) × AllBefore end es

-- Every byte of a part of the file is held by an extent.
abbrev pub IsCovered : ℕ → ℕ → List Extent → Type 0
IsCovered from n es = (o : ℕ) → from ≤ o → o < from + n → (e : Extent) × (find_extent o es ≡ some e)

find_extent-first :
    (o : ℕ) (es : List Extent) (x : Extent) {e : Extent}
    → find_extent o es ≡ some e
    → find_extent o (es ++ (x ∷ [])) ≡ some e
unfolding find_extent
find_extent-first o [] x {e} h = cc
find_extent-first o (y ∷ es) x {e} h = ground (arith, find_extent-first o es x {e = e})

find_extent-before :
    (end o : ℕ) (es : List Extent) {e : Extent}
    → AllBefore end es
    → find_extent o es ≡ some e
    → e.physical_ptr + e.len ≤ end
unfolding AllBefore find_extent
find_extent-before end o [] {e} all h = cc
find_extent-before end o (y ∷ es) {e} (here, all) h =
    ground (arith, find_extent-before end o es {e = e} all)

module _ (D : BlockDevice) (keeps : Keeps D) (log : LogManager D) (meta : InodeMetadata)
    (offset : ℕ) (bytes : Bytes) where
  abbrev log_after : LogManager D
  log_after = (append_data D bytes log).1

  abbrev meta_after : InodeMetadata
  meta_after = push_extent offset bytes log.next_append_pos meta

  module _ (before : AllBefore log.next_append_pos meta.extents)
      (fits : log.next_append_pos < 2 ^ 64) where
    same_data :
        (pos len : ℕ)
        → pos + len ≤ log.next_append_pos
        → read_data D pos len log_after ≡ read_data D pos len log
    unfolding read_data
    same_data pos len h =
        ap (λ out. D.read_at pos len out.1.device) (after_append D keeps bytes log)
        ∙ keeps.keeps_before log.next_append_pos bytes log.device pos len h

    -- A round that reads through an older extent reads the same after the write.
    read_part-same :
        (st : LogRead) (e : Extent)
        → find_extent st.current_offset meta.extents ≡ some e
        → read_part D log_after e st ≡ read_part D log e st
    unfolding read_part
    read_part-same st e found =
        let (low, high) = find_extent-holds st.current_offset meta.extents found in
        let end =
          find_extent-before log.next_append_pos st.current_offset meta.extents before found in
        let off = st.current_offset - e.logical_off in
        let at : add64 e.physical_ptr off ≡ e.physical_ptr + off = omega arith in
        rw (
          at,
          same_data (e.physical_ptr + off) (min (e.len - off) (length st.buf - st.buf_pos))
              (omega arith),
        )

    module _ (from : ℕ) (buf : Bytes) (inside : from + length buf ≤ meta.size)
        (small : meta.size < 2 ^ 64) where
      -- What every round keeps.
      abbrev Reading : LogRead → Type 0
      Reading st =
          (st.current_offset ≡ from + st.buf_pos)
          × (length st.buf ≡ length buf)
          × (st.buf_pos ≤ length buf)

      next_part-same :
          (st : LogRead) (e : Extent)
          → st.buf_pos < length buf
          → Reading st
          → find_extent st.current_offset meta.extents ≡ some e
          → (next_part D log meta st ≡ some e) × (next_part D log_after meta_after st ≡ some e)
      unfolding next_part push_extent
      next_part-same st e room reading found =
          let more : (ltb st.buf_pos (length st.buf) && ltb st.current_offset meta.size) ≡ true =
            ground arith in
          let still : (ltb st.buf_pos (length st.buf)
                && ltb st.current_offset (max meta.size (add64 offset (length bytes))))
              ≡ true =
            ground arith in
          (rw more found, rw still (find_extent-first st.current_offset meta.extents _ found))

      no_part :
          (st : LogRead)
          → length buf ≤ st.buf_pos
          → Reading st
          → (next_part D log meta st ≡ none) × (next_part D log_after meta_after st ≡ none)
      unfolding next_part
      no_part st full reading = ground arith

      -- What the loop does on less fuel.
      abbrev SameOn : ℕ → Type 0
      SameOn fuel =
          (st : LogRead)
          → Reading st
          → read_parts D log_after fuel meta_after st ≡ read_parts D log fuel meta st

      resumed :
          (fuel : ℕ)
          → SameOn fuel
          → (st : LogRead) (e : Extent) → Reading st
          → (r : DbfsResult LogRead) → read_part D log e st ≡ r
          → resume D log_after (read_parts D log_after fuel meta_after) r
            ≡ resume D log (read_parts D log fuel meta) r
      resumed fuel again st e reading (ok st') run =
          again st' (omega (arith, read_part-Advanced D log e st run))
      resumed fuel again st e reading (err x) run = refl
      resumed fuel again st e reading panic run = refl

      module _ (covered : IsCovered from (length buf) meta.extents) where
        one_round :
            (fuel : ℕ)
            → SameOn fuel
            → (st : LogRead) → st.buf_pos < length buf
            → Reading st
            → read_parts D log_after (suc fuel) meta_after st ≡ read_parts D log (suc fuel) meta st
        one_round fuel again st room reading =
            let (e, found) = covered st.current_offset (omega arith) (omega arith) in
            let (then_found, now_found) = next_part-same st e room reading found in
            read_parts-part D log_after meta_after fuel st e now_found
            ∙ ap (resume D log_after (read_parts D log_after fuel meta_after))
                (read_part-same st e found)
            ∙ resumed fuel again st e reading (read_part D log e st) refl
            ∙ sym (read_parts-part D log meta fuel st e then_found)

        read_parts-same : (fuel : ℕ) → SameOn fuel
        unfolding read_parts
        read_parts-same zero st reading = refl
        read_parts-same (suc fuel) st reading = elim (Bool-cases (ltb st.buf_pos (length buf))) [
          | inl room ↦
              one_round fuel (λ st' k. read_parts-same fuel st' k) st (ground arith) reading
          | inr full ↦
              let (none_then, none_now) = no_part st (ground arith) reading in
              read_parts-stop D log_after meta_after fuel st none_now
              ∙ sym (read_parts-stop D log meta fuel st none_then)
        ]

        -- On a device that keeps what was written, for a part of the file of at least one byte, within
        -- its size below `2 ^ 64`, of which older extents hold every byte, with their data before the
        -- log's end below `2 ^ 64`: after a write of any bytes at any offset, `read_from_log` reads
        -- that part as it did before.
        pub read_from_log-same :
            0 < length buf
            → read_from_log D log_after meta_after from buf ≡ read_from_log D log meta from buf
        unfolding read_from_log push_extent
        read_from_log-same pos =
            let before_end : leb meta.size from ≡ false = ground arith in
            let still : leb (max meta.size (add64 offset (length bytes))) from ≡ false =
              ground arith in
            rw (before_end, still)
              (ap (outcome D log) (
                read_parts-same (suc (length buf))
                  (record { bytes_read = 0; current_offset = from; buf_pos = 0; buf = buf })
                  (omega arith, refl, omega arith)))

      module _ (e : Extent) (found : find_extent from meta.extents ≡ some e)
          (held : from + length buf ≤ e.logical_off + e.len) (got : Bytes)
          (same_length : length got ≡ length buf)
          (old : read_data D (e.physical_ptr + (from - e.logical_off)) (length buf) log
            ≡ ok (length buf, got))
          (some_bytes : 0 < length buf) where
        abbrev start : LogRead
        start = record { bytes_read = 0; current_offset = from; buf_pos = 0; buf = buf }

        abbrev done : LogRead
        done = record {
          bytes_read = length buf;
          current_offset = from + length buf;
          buf_pos = length buf;
          buf = got;
        }

        part_read : read_part D log e start ≡ ok done
        unfolding read_part
        part_read =
            let (low, high) = find_extent-holds from meta.extents found in
            let end = find_extent-before log.next_append_pos from meta.extents before found in
            let off = from - e.logical_off in
            let n : min (e.len - off) (length buf - 0) ≡ length buf = omega arith in
            let at : add64 e.physical_ptr off ≡ e.physical_ptr + off = omega arith in
            let next : add64 from (length buf) ≡ from + length buf = omega arith in
            let count : 0 + length buf ≡ length buf = omega arith in
            rw (
              n,
              at,
              old,
              next,
              count,
              take-all (length buf) got (omega arith),
              overlay-whole buf got (sym same_length),
            )

        start_next :
            (next_part D log meta start ≡ some e)
            × (next_part D log_after meta_after start ≡ some e)
        start_next = next_part-same start e some_bytes (omega arith, refl, omega arith) found

        done_next :
            (next_part D log meta done ≡ none) × (next_part D log_after meta_after done ≡ none)
        done_next = no_part done (omega arith) (refl, same_length, omega arith)

        then_done :
            (n : ℕ)
            → 0 < n
            → (read_parts D log n meta done ≡ some (ok done))
              × (read_parts D log_after n meta_after done ≡ some (ok done))
        then_done zero h = absurd (omega arith)
        then_done (suc n) h = (
          read_parts-stop D log meta n done done_next.0,
          read_parts-stop D log_after meta_after n done done_next.1,
        )

        whole_read :
            (read_parts D log (suc (length buf)) meta start ≡ some (ok done))
            × (read_parts D log_after (suc (length buf)) meta_after start ≡ some (ok done))
        whole_read = (
          read_parts-part D log meta (length buf) start e start_next.0
              ∙ ap (resume D log (read_parts D log (length buf) meta)) part_read
              ∙ (then_done (length buf) some_bytes).0,
          read_parts-part D log_after meta_after (length buf) start e start_next.1
              ∙ ap (resume D log_after (read_parts D log_after (length buf) meta_after))
                  (read_part-same start e found ∙ part_read)
              ∙ (then_done (length buf) some_bytes).1,
        )

        -- On a device that keeps what was written, for a part of the file of at least one byte, within
        -- its size below `2 ^ 64`, that lies in the first extent that holds its first byte, where the
        -- data of all extents lie before the log's end below `2 ^ 64` and the device gives the whole
        -- part: `read_from_log` reads the bytes that the device holds for this extent, and it reads the
        -- same bytes after a write of any others at any offset, also where the write covers the part.
        pub overwrite_unseen :
            (read_from_log D log meta from buf ≡ some (ok (length buf, got)))
            × (read_from_log D log_after meta_after from buf ≡ some (ok (length buf, got)))
        unfolding read_from_log push_extent
        overwrite_unseen =
            let begins : leb meta.size from ≡ false = ground arith in
            let still : leb (max meta.size (add64 offset (length bytes))) from ≡ false =
              ground arith in
            rw (begins, still)
              (ap (outcome D log) whole_read.0, ap (outcome D log_after) whole_read.1)
