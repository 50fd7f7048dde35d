-- ===== src/File/Slices.antt =====
-- A file as one array of bytes over its slices, and what the storing of a slice does to it.
use dbfs.Prelude.{
  ℕ, ◌+◌, ◌-◌, ◌^◌, ◌≤◌, ◌<◌, ◌≡◌, ◌≢◌, ◌⊎◌, inl, inr, false, ◌&&◌, Bool-cases, Option, some, Bytes,
  length, same, same-ne, ◌==◌, arith,
}
use dbfs.Prelude.Buffer.{get_elem?, length-overlay, get_elem?-overlay_in, get_elem?-overlay_out}
use dbfs.Bytes.{be_bytes}
use dbfs.Bytes.BigEndian.{be_bytes-injective}
use dbfs.Common.Keys.{generate_data_key_with_number, slice_size}
use dbfs.File.{slice_or, stored_slice}

pub slice_key-ne :
    (a b : ℕ)
    → a < 2 ^ 32
    → b < 2 ^ 32
    → a ≢ b
    → same (generate_data_key_with_number a) (generate_data_key_with_number b) ≡ false
unfolding generate_data_key_with_number
slice_key-ne a b ha hb ne =
    same-ne (be_bytes 4 a) (be_bytes 4 b) (λ e. ne (be_bytes-injective 4 a b ha hb e))

module _ (fresh : ℕ → Bytes) (num offset : ℕ) (part : Bytes)
    (fits : offset + length part ≤ slice_size) (full : length (fresh num) ≡ slice_size) where
  pub length-stored_slice :
      (old : Option Bytes)
      → length (slice_or old (fresh num)) ≡ slice_size
      → length (stored_slice fresh num offset part old) ≡ slice_size
  unfolding stored_slice
  length-stored_slice old h = ground (arith, length-overlay (slice_or old (fresh num)) offset part)

  pub stored_slice-in :
      (old : Option Bytes) (i : ℕ)
      → length (slice_or old (fresh num)) ≡ slice_size
      → offset ≤ i
      → i < offset + length part
      → get_elem? (stored_slice fresh num offset part old) i ≡ get_elem? part (i - offset)
  unfolding stored_slice
  stored_slice-in old i h low high = elim (Bool-cases (length part == slice_size && offset == 0)) [
    | inl whole ↦ rw whole (let e : i - offset ≡ i = ground arith in rw e)
    | inr some_part ↦
        rw some_part
          (get_elem?-overlay_in (slice_or old (fresh num)) offset part i low high (omega arith))
  ]

  pub stored_slice-out :
      (value : Bytes) (i : ℕ)
      → i < slice_size
      → (i < offset) ⊎ (offset + length part ≤ i)
      → get_elem? (stored_slice fresh num offset part (some value)) i ≡ get_elem? value i
  unfolding stored_slice
  stored_slice-out value i small out =
      elim (Bool-cases (length part == slice_size && offset == 0)) [
        | inl whole ↦ absurd (ground arith)
        | inr some_part ↦ rw some_part (get_elem?-overlay_out value offset part i out)
      ]
