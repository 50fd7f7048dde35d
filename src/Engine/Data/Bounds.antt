-- ===== src/Engine/Data/Bounds.antt =====
-- A read with `read_from_log` ends, and stays within the buffer and the file; the extents of a file
-- stay within its size.
use dbfs.Prelude.{
  max, ℕ, suc, ◌+◌, ◌-◌, ◌^◌, ◌≤◌, ◌<◌, ◌≡◌, refl, Bool-cases, inl, inr, some, List, [], ◌∷◌, ◌++◌,
  Bytes, length, ltb, leb, arith,
}
use dbfs.Prelude.Res
use dbfs.Prelude.Res.{ok, err, panic}
use dbfs.Prelude.Words.{add64}
use dbfs.Common.Error.{DbfsResult}
use dbfs.Engine.{Extent, InodeMetadata, cut_extent, truncate_extents, truncate_metadata}
use dbfs.Engine.Data.Loop.{
  AllWithin, find_extent-holds, find_extent-within, next_part-lem, read_part-Advanced, Ended,
  read_parts-Ended,
}
use dbfs.Engine.Data.{push_extent, LogRead, next_part, read_part, read_from_log}
use dbfs.LogManager.{BlockDevice, LogManager}

module _ (D : BlockDevice) (log : LogManager D) (meta : InodeMetadata) (offset : ℕ)
    (buf : Bytes) where
  -- What a read returns: not more than the buffer holds, nor than the file has from the offset on.
  abbrev pub InBounds : DbfsResult (ℕ × Bytes) → Type 0
  InBounds (ok (n, buf')) = (n ≤ length buf) × (n ≤ meta.size - offset) × (length buf' ≡ length buf)
  InBounds (err x) = Unit {0}
  InBounds panic = Unit {0}

  -- Whatever the extents are, also where they overlap or wrap: the loop ends, after at most as many
  -- rounds as the buffer has bytes and one more.
  pub read_from_log-ends :
      (r : DbfsResult (ℕ × Bytes)) × (read_from_log D log meta offset buf ≡ some r)
  unfolding read_from_log
  read_from_log-ends = elim (Bool-cases (leb meta.size offset)) [
    | inl behind ↦ (ok (0, buf), rw behind)
    | inr inside ↦
        let start : LogRead = record {
          bytes_read = 0;
          current_offset = offset;
          buf_pos = 0;
          buf = buf;
        } in
        let (r, run, end) =
          read_parts-Ended D log meta (λ st. Unit {0}) (λ st st' e n p k. tt) (suc (length buf))
            start (omega arith) tt in
        (Res.◌>>=◌ r (λ st. ok (st.bytes_read, st.buf)), rw (inside, run))
  ]

  -- What every round keeps.
  abbrev Advancing : LogRead → Type 0
  Advancing st =
      (st.bytes_read ≡ st.buf_pos)
      × (st.buf_pos ≤ length buf)
      × (length st.buf ≡ length buf)
      × (st.current_offset ≡ offset + st.buf_pos)
      × (offset + st.buf_pos ≤ meta.size)

  Advancing-kept :
      AllWithin meta.size meta.extents
      → meta.size < 2 ^ 64
      → (st st' : LogRead) (e : Extent) → next_part D log meta st ≡ some e
      → read_part D log e st ≡ ok st'
      → Advancing st
      → Advancing st'
  Advancing-kept within fits st st' e found run k =
      let (room, inside, at) = next_part-lem D log meta st found in
      let bound : e.logical_off + e.len ≤ meta.size =
        find_extent-within meta.size st.current_offset meta.extents within at in
      omega (
        arith,
        read_part-Advanced D log e st run,
        find_extent-holds st.current_offset meta.extents at,
      )

  bounds :
      (r : DbfsResult LogRead)
      → Ended D log meta Advancing r
      → InBounds (Res.◌>>=◌ r (λ st. ok (st.bytes_read, st.buf)))
  bounds (ok st) (k, stop) = omega arith
  bounds (err x) k = tt
  bounds panic k = tt

  -- If no extent ends behind the file, whose size fits 64 bits: a read ends, and returns not more
  -- bytes than the buffer holds, nor than the file has from the offset on.
  pub read_from_log-InBounds :
      AllWithin meta.size meta.extents
      → meta.size < 2 ^ 64
      → (r : DbfsResult (ℕ × Bytes)) × (read_from_log D log meta offset buf ≡ some r) × InBounds r
  unfolding read_from_log
  read_from_log-InBounds within fits = elim (Bool-cases (leb meta.size offset)) [
    | inl behind ↦ (ok (0, buf), rw behind, (omega arith, omega arith, refl))
    | inr inside ↦
        let start : LogRead = record {
          bytes_read = 0;
          current_offset = offset;
          buf_pos = 0;
          buf = buf;
        } in
        let began : Advancing start = (refl, omega arith, refl, omega arith, ground arith) in
        let (r, run, end) =
          read_parts-Ended D log meta Advancing (Advancing-kept within fits) (suc (length buf))
            start (omega arith) began in
        (Res.◌>>=◌ r (λ st. ok (st.bytes_read, st.buf)), rw (inside, run), bounds r end)
  ]

-- The invariant of a file: it has a size of 64 bits, and no extent ends behind it.
abbrev pub IsContained : InodeMetadata → Type 0
IsContained meta = (meta.size < 2 ^ 64) × AllWithin meta.size meta.extents

AllWithin-widen : (a b : ℕ) (es : List Extent) → a ≤ b → AllWithin a es → AllWithin b es
unfolding AllWithin
AllWithin-widen a b [] le all = tt
AllWithin-widen a b (e ∷ es) le (here, all) = (omega arith, AllWithin-widen a b es le all)

AllWithin-append :
    (size : ℕ) (es : List Extent) (e : Extent)
    → AllWithin size es
    → e.logical_off + e.len ≤ size
    → AllWithin size (es ++ (e ∷ []))
unfolding AllWithin
AllWithin-append size [] e all h = (h, tt)
AllWithin-append size (x ∷ xs) e (here, all) h = (here, AllWithin-append size xs e all h)

AllWithin-truncated :
    (new_size : ℕ) (size : ℕ) (es : List Extent)
    → size < 2 ^ 64
    → AllWithin size es
    → AllWithin new_size (truncate_extents new_size es)
unfolding AllWithin truncate_extents cut_extent
AllWithin-truncated new_size size [] fits all = tt
AllWithin-truncated new_size size (e ∷ es) fits (here, all) =
    ground (arith, AllWithin-truncated new_size size es fits all)

-- A write that ends below `2 ^ 64`, and a change of the size to one of 64 bits, keep a file
-- contained.
pub IsContained-kept :
    (meta : InodeMetadata) (offset : ℕ) (bytes : Bytes) (p_ptr new_size : ℕ)
    → IsContained meta
    → offset + length bytes < 2 ^ 64
    → new_size < 2 ^ 64
    → IsContained (push_extent offset bytes p_ptr meta)
      × IsContained (truncate_metadata new_size meta)
unfolding push_extent truncate_metadata
IsContained-kept meta offset bytes p_ptr new_size (fits, all) ends small =
    let no_wrap : add64 offset (length bytes) ≡ offset + length bytes = omega arith in
    let size = max meta.size (offset + length bytes) in
    (
      rw no_wrap (
        omega arith,
        AllWithin-append size meta.extents _
            (AllWithin-widen meta.size size meta.extents (omega arith) all) (omega arith),
      ),
      (
        small,
        elim (Bool-cases (ltb new_size meta.size)) [
          | inl shorter ↦ rw shorter (AllWithin-truncated new_size meta.size meta.extents fits all)
          | inr longer ↦
              rw longer (AllWithin-widen meta.size new_size meta.extents (ground arith) all)
        ],
      ),
    )
