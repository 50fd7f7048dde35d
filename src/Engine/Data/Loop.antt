-- ===== src/Engine/Data/Loop.antt =====
-- The loop of `read_from_log` ends, and what every round keeps holds at its end.
use dbfs.Prelude.{
  ℕ, zero, suc, ◌+◌, ◌-◌, ◌≤◌, ◌<◌, min, ◌≡◌, refl, Option, none, some, List, [], ◌∷◌, Bytes,
  length, take, arith,
}
use dbfs.Prelude.Buffer.{overlay, length-overlay}
use dbfs.Prelude.Res
use dbfs.Prelude.Res.{ok, err, panic}
use dbfs.Prelude.Words.{add64}
use dbfs.Common.Error.{DbfsResult}
use dbfs.Engine.{Extent, InodeMetadata, holds, find_extent}
use dbfs.Engine.Data.{LogRead, next_part, resume, read_next, read_part, read_parts}
use dbfs.LogManager.{BlockDevice, LogManager, read_data}

-- No extent ends behind the file.
unfoldable pub AllWithin : ℕ → List Extent → Type 0
AllWithin size [] = Unit {0}
AllWithin size (e ∷ es) = (e.logical_off + e.len ≤ size) × AllWithin size es

-- An extent that was found holds the byte, so a part of it is left to read.
pub find_extent-holds :
    (offset : ℕ) (es : List Extent) {e : Extent}
    → find_extent offset es ≡ some e
    → (e.logical_off ≤ offset) × (offset < e.logical_off + e.len)
unfolding find_extent holds
find_extent-holds offset [] {e = e} h = cc
find_extent-holds offset (x ∷ xs) {e = e} h = ground (arith, find_extent-holds offset xs {e = e})

pub find_extent-within :
    (size offset : ℕ) (es : List Extent) {e : Extent}
    → AllWithin size es
    → find_extent offset es ≡ some e
    → e.logical_off + e.len ≤ size
unfolding AllWithin find_extent
find_extent-within size offset [] {e = e} all h = cc
find_extent-within size offset (x ∷ xs) {e = e} (here, all) h =
    ground (arith, find_extent-within size offset xs {e = e} all)

module _ (D : BlockDevice) (log : LogManager D) where
  -- The length of the part that one round reads, and the state behind it.
  abbrev pub part : Extent → LogRead → ℕ
  part e st = min (e.len - (st.current_offset - e.logical_off)) (length st.buf - st.buf_pos)

  abbrev pub Advanced : Extent → LogRead → LogRead → Type 0
  Advanced e st st' =
      (st'.bytes_read ≡ st.bytes_read + part e st)
      × (st'.current_offset ≡ add64 st.current_offset (part e st))
      × (st'.buf_pos ≡ st.buf_pos + part e st)
      × (length st'.buf ≡ length st.buf)

  pub read_part-Advanced :
      (e : Extent) (st : LogRead) {st' : LogRead}
      → read_part D log e st ≡ ok st'
      → Advanced e st st'
  unfolding read_part
  read_part-Advanced e st {st'} h =
      after (read_data D (add64 e.physical_ptr (st.current_offset - e.logical_off)) (part e st) log)
        h
    where
      after :
          (r : DbfsResult (ℕ × Bytes))
          → Res.◌>>=◌ r (λ got. ok (record {
            bytes_read = st.bytes_read + part e st;
            current_offset = add64 st.current_offset (part e st);
            buf_pos = st.buf_pos + part e st;
            buf = overlay st.buf st.buf_pos (take (part e st) got.1);
          }))
            ≡ ok st'
          → Advanced e st st'
      after (ok (n, bytes)) h =
          ground (arith, length-overlay st.buf st.buf_pos (take (part e st) bytes))
      after (err x) h = cc
      after panic h = cc

  module _ (meta : InodeMetadata) where
    -- A round that reads something: there is room in the buffer, and the extent holds the offset.
    pub next_part-lem :
        (st : LogRead) {e : Extent}
        → next_part D log meta st ≡ some e
        → (st.buf_pos < length st.buf)
          × (st.current_offset < meta.size)
          × (find_extent st.current_offset meta.extents ≡ some e)
    unfolding next_part
    next_part-lem st {e} h = ground arith

    part-pos : (st : LogRead) {e : Extent} → next_part D log meta st ≡ some e → 0 < part e st
    part-pos st {e} h =
        let (room, inside, found) = next_part-lem st h in
        omega (arith, find_extent-holds st.current_offset meta.extents found)

    pub read_parts-stop :
        (fuel : ℕ) (st : LogRead)
        → next_part D log meta st ≡ none
        → read_parts D log (suc fuel) meta st ≡ some (ok st)
    unfolding read_parts read_next
    read_parts-stop fuel st h = rw h

    pub read_parts-part :
        (fuel : ℕ) (st : LogRead) (e : Extent)
        → next_part D log meta st ≡ some e
        → read_parts D log (suc fuel) meta st
          ≡ resume D log (read_parts D log fuel meta) (read_part D log e st)
    unfolding read_parts read_next
    read_parts-part fuel st e h = rw h

    module _ (Keeps : LogRead → Type 0) where
      abbrev pub Ended : DbfsResult LogRead → Type 0
      Ended (ok st) = Keeps st × (next_part D log meta st ≡ none)
      Ended (err x) = Unit {0}
      Ended panic = Unit {0}

      -- What the loop does on less fuel.
      abbrev pub Again : ℕ → Type 0
      Again fuel =
          (st : LogRead)
          → length st.buf - st.buf_pos < fuel
          → Keeps st
          → (r : DbfsResult LogRead) × (read_parts D log fuel meta st ≡ some r) × Ended r

      -- Fuel above the number of bytes that are left in the buffer is enough, and what every round
      -- keeps holds at the end.
      pub read_parts-Ended :
          ((st st' : LogRead) (e : Extent)
            → next_part D log meta st ≡ some e
            → read_part D log e st ≡ ok st'
            → Keeps st
            → Keeps st')
          → (fuel : ℕ) (st : LogRead) → length st.buf - st.buf_pos < fuel
          → Keeps st
          → (r : DbfsResult LogRead) × (read_parts D log fuel meta st ≡ some r) × Ended r
      read_parts-Ended keep zero st h k = absurd (omega arith)
      read_parts-Ended keep (suc fuel) st h k =
          next (λ st' less k'. read_parts-Ended keep fuel st' less k') (next_part D log meta st)
            refl
        where
          one_round :
              Again fuel
              → (e : Extent) → next_part D log meta st ≡ some e
              → (r : DbfsResult LogRead) → read_part D log e st ≡ r
              → (out : DbfsResult LogRead) × (resume D log (read_parts D log fuel meta) r
                  ≡ some out)
                × Ended out
          one_round again e found (ok st') run =
              again st' (omega (arith, part-pos st found, read_part-Advanced e st run))
                (keep st st' e found run k)
          one_round again e found (err x) run = (err x, refl, tt)
          one_round again e found panic run = (panic, refl, tt)

          next :
              Again fuel
              → (o : Option Extent) → next_part D log meta st ≡ o
              → (r : DbfsResult LogRead) × (read_parts D log (suc fuel) meta st ≡ some r) × Ended r
          next again none stop = (ok st, read_parts-stop fuel st stop, (k, stop))
          next again (some e) found =
              rw (read_parts-part fuel st e found)
                (one_round again e found (read_part D log e st) refl)
