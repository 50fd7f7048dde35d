-- ===== src/File/Write.antt =====
-- The loop of `dbfs_common_write` ends, and what a file holds behind it.
use dbfs.Prelude.{
  ℕ, zero, suc, ◌+◌, ◌-◌, ◌*◌, ◌^◌, ◌≤◌, ◌<◌, ◌≡◌, ◌≢◌, ◌⊎◌, inl, inr, refl, ap, ◌∙◌, some, Bytes,
  length, take, drop, length-take, length-drop, ltb, Bool-cases, ◌==◌, arith,
}
use dbfs.Prelude.Buffer.{get_elem?, get_elem?-take, get_elem?-drop}
use dbfs.Prelude.Res.{ok}
use dbfs.Common.Keys.{ino_key, slice_size, k_size}
use dbfs.Kv.{Kv}
use dbfs.File.{WriteLoop, stored_slice, part_length, next_slice, write_slices}
use dbfs.File.Round.{
  slice_at, byte_at, IsSliced, stored, write_slice-stored, slice_at-stored, size-stored,
  stored-IsSliced, slice_at-stays, byte_at-in, byte_at-out,
}

module _ (fresh : ℕ → Bytes) (K : Kv) (number : ℕ) (buf : Bytes) where
  open K use {Db}

  -- Where in the file the loop stands, and what it has still to write.
  abbrev pub place : WriteLoop → ℕ
  place st = st.num * 32768 + st.offset

  abbrev pub left : WriteLoop → ℕ
  left st = length buf - st.count

  abbrev pub part_of : WriteLoop → Bytes
  part_of st = take (part_length fresh K buf st) (drop st.count buf)

  -- What the loop leaves of a file, from a state of it on.
  pub record Written (st : WriteLoop) (d d' : Db) : Type 0 where
    pub sliced : IsSliced fresh K number d'
    pub size_kept : K.get_kv (ino_key number) k_size d' ≡ K.get_kv (ino_key number) k_size d
    pub new_bytes :
        (i j : ℕ)
        → i < 2 ^ 32
        → j < slice_size
        → place st ≤ i * 32768 + j
        → i * 32768 + j < place st + left st
        → byte_at fresh K number d' i j ≡ get_elem? buf (st.count + (i * 32768 + j - place st))
    pub old_bytes :
        (i j : ℕ) (value : Bytes)
        → i < 2 ^ 32
        → j < slice_size
        → slice_at fresh K number d i ≡ some value
        → (i * 32768 + j < place st) ⊎ (place st + left st ≤ i * 32768 + j)
        → byte_at fresh K number d' i j ≡ byte_at fresh K number d i j

  -- A state of the loop whose data fits behind its place.
  pub record Fits (st : WriteLoop) : Type 0 where
    pub within : st.offset < slice_size
    pub behind : st.count ≤ length buf
    pub room : place st + left st < 2 ^ 32 * 32768

  abbrev after_round : WriteLoop → Db → Db
  after_round st d = stored fresh K number st.num st.offset (part_of st) d

  length-part_of : (st : WriteLoop) → length (part_of st) ≡ part_length fresh K buf st
  length-part_of st = omega (
    arith,
    length-take (part_length fresh K buf st) (drop st.count buf),
    length-drop st.count buf,
  )

  -- The next round goes on where this one ends.
  next_slice-place :
      (st : WriteLoop)
      → Fits st
      → (next_slice fresh K buf st).count ≢ length buf
      → place (next_slice fresh K buf st) ≡ place st + part_length fresh K buf st
  unfolding slice_size
  next_slice-place st h more = omega (arith, h.within, h.behind)

  next_slice-Fits :
      (st : WriteLoop)
      → Fits st
      → (next_slice fresh K buf st).count ≢ length buf
      → Fits (next_slice fresh K buf st)
  unfolding slice_size
  next_slice-Fits st h more = record {
    within = omega (arith, h.within);
    behind = omega (arith, h.behind);
    room = omega (arith, next_slice-place st h more, h.within, h.behind, h.room);
  }

  module _ (full : (n : ℕ) → length (fresh n) ≡ slice_size) (st : WriteLoop) (d : Db) (h : Fits st)
      (sliced : IsSliced fresh K number d) where
    num-small : st.num < 2 ^ 32
    num-small = omega (arith, h.room)

    part-fits : st.offset + length (part_of st) ≤ slice_size
    part-fits = omega (arith, length-part_of st, h.within)

    round-IsSliced : IsSliced fresh K number (after_round st d)
    round-IsSliced =
        stored-IsSliced fresh K number st.num st.offset (part_of st) d num-small part-fits
          (full st.num) sliced

    round-new :
        (i j : ℕ)
        → i < 2 ^ 32
        → j < slice_size
        → place st ≤ i * 32768 + j
        → i * 32768 + j < place st + part_length fresh K buf st
        → byte_at fresh K number (after_round st d) i j
          ≡ get_elem? buf (st.count + (i * 32768 + j - place st))
    round-new i j less inside low high =
        let k = i * 32768 + j - place st in
        byte_at-in fresh K number st.num st.offset (part_of st) d num-small part-fits (full st.num)
          sliced i j less inside low (omega (arith, length-part_of st))
        ∙ get_elem?-take (part_length fresh K buf st) k (drop st.count buf) (omega arith)
        ∙ get_elem?-drop st.count k buf

    round-old :
        (i j : ℕ) (value : Bytes)
        → i < 2 ^ 32
        → j < slice_size
        → slice_at fresh K number d i ≡ some value
        → (i * 32768 + j < place st) ⊎ (place st + part_length fresh K buf st ≤ i * 32768 + j)
        → byte_at fresh K number (after_round st d) i j ≡ byte_at fresh K number d i j
    round-old i j value less inside found out =
        byte_at-out fresh K number st.num st.offset (part_of st) d num-small part-fits (full st.num)
          sliced i j value less inside found (omega (arith, length-part_of st))

    round-size :
        K.get_kv (ino_key number) k_size (after_round st d) ≡ K.get_kv (ino_key number) k_size d
    round-size = size-stored fresh K number st.num st.offset (part_of st) d

    last_round : (next_slice fresh K buf st).count ≡ length buf → Written st d (after_round st d)
    last_round stop = record {
      sliced = round-IsSliced;
      size_kept = round-size;
      new_bytes =
          λ i j less inside low high. round-new i j less inside low (omega (arith, h.behind));
      old_bytes = λ i j value less inside found out.
          round-old i j value less inside found (omega (arith, h.behind));
    }

    module _ (more : (next_slice fresh K buf st).count ≢ length buf) (d' : Db)
        (w : Written (next_slice fresh K buf st) (after_round st d) d') where
      -- The bytes of this round stay as the later rounds write behind them.
      this-new :
          (i j : ℕ)
          → i < 2 ^ 32
          → j < slice_size
          → place st ≤ i * 32768 + j
          → i * 32768 + j < place st + part_length fresh K buf st
          → byte_at fresh K number d' i j ≡ get_elem? buf (st.count + (i * 32768 + j - place st))
      unfolding slice_size
      this-new i j less inside low high =
          let same_slice : i ≡ st.num = omega (arith, h.within) in
          let found =
            ap (slice_at fresh K number (after_round st d)) same_slice
            ∙ slice_at-stored fresh K number st.num st.offset (part_of st) d in
          w.old_bytes i j
            (stored_slice fresh st.num st.offset (part_of st) (slice_at fresh K number d st.num))
            less inside found (omega (arith, next_slice-place st h more))
          ∙ round-new i j less inside low high

      later-new :
          (i j : ℕ)
          → i < 2 ^ 32
          → j < slice_size
          → place st + part_length fresh K buf st ≤ i * 32768 + j
          → i * 32768 + j < place st + left st
          → byte_at fresh K number d' i j ≡ get_elem? buf (st.count + (i * 32768 + j - place st))
      later-new i j less inside low high =
          let e : (next_slice fresh K buf st).count
                + (i * 32768 + j - place (next_slice fresh K buf st))
              ≡ st.count + (i * 32768 + j - place st) =
            omega (arith, next_slice-place st h more) in
          w.new_bytes i j less inside (omega (arith, next_slice-place st h more))
            (omega (arith, next_slice-place st h more))
          ∙ ap (get_elem? buf) e

      then_round : Written st d d'
      then_round = record {
        sliced = w.sliced;
        size_kept = w.size_kept ∙ round-size;
        new_bytes = λ i j less inside low high.
            elim (Bool-cases (ltb (i * 32768 + j) (place st + part_length fresh K buf st))) [
              | inl this ↦ this-new i j less inside low (ground arith)
              | inr later ↦ later-new i j less inside (ground arith) high
            ];
        old_bytes = λ i j value less inside found out.
            let (new, stays) =
              slice_at-stays fresh K number st.num st.offset (part_of st) d num-small part-fits
                (full st.num) sliced i value less found in
            w.old_bytes i j new less inside stays (omega (arith, next_slice-place st h more))
            ∙ round-old i j value less inside found (omega arith);
      }

  -- Fuel above the number of bytes that are left is enough.
  pub write_slices-Written :
      ((n : ℕ) → length (fresh n) ≡ slice_size)
      → (fuel : ℕ) (st : WriteLoop) (d : Db) → left st < fuel
      → Fits st
      → IsSliced fresh K number d
      → (d' : Db) × (write_slices fresh K fuel number buf st d ≡ ok (some (length buf), d'))
        × Written st d d'
  unfolding write_slices
  write_slices-Written full zero st d enough h sliced = absurd (omega arith)
  write_slices-Written full (suc fuel) st d enough h sliced =
      rw
        (write_slice-stored fresh K number st.num st.offset (part_of st) d
          (num-small full st d h sliced) sliced.there)
        (elim (Bool-cases ((next_slice fresh K buf st).count == length buf)) [
          | inl stop ↦
              rw stop (after_round st d, refl, last_round full st d h sliced (ground arith))
          | inr more ↦
              let (d', run, w) =
                write_slices-Written full fuel (next_slice fresh K buf st) (after_round st d)
                  (ground (arith, h.within, h.behind)) (next_slice-Fits st h (ground arith))
                  (round-IsSliced full st d h sliced) in
              rw more (d', run, then_round full st d h sliced (ground arith) d' w)
        ])
