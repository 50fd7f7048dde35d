-- ===== src/File/Round.antt =====
-- One round of the loop of `dbfs_common_write`: the bytes of a file, by slice and place in it, before
-- and after a slice is stored.
use dbfs.Prelude.{
  ℕ, ◌+◌, ◌-◌, ◌*◌, ◌^◌, ◌≤◌, ◌<◌, ◌≡◌, ◌≢◌, ◌⊎◌, inl, inr, refl, ap, ◌∙◌, sym, true, Option, none,
  some, Bytes, length, same_refl, Bool-cases, ◌==◌, ◌%◌, arith,
}
use dbfs.Prelude.Buffer.{get_elem?}
use dbfs.Prelude.Res.{ok}
use dbfs.Common.Keys.{ino_key, generate_data_key_with_number, slice_size, k_size}
use dbfs.Kv.{Kv}
use dbfs.Store.Laws.{put_at}
use dbfs.Store.Tx.{get_kv}
use dbfs.File.{slice_or, stored_slice, write_slice}
use dbfs.File.Slices.{slice_key-ne, length-stored_slice, stored_slice-in, stored_slice-out}

module _ (fresh : ℕ → Bytes) (K : Kv) (number : ℕ) where
  open K use {Db}

  -- The slice with a number, and the byte at a place in it.
  abbrev pub slice_at : Db → ℕ → Option Bytes
  slice_at d i = K.get_kv (ino_key number) (generate_data_key_with_number i) d

  abbrev pub byte_of : Option Bytes → ℕ → Option ℕ
  byte_of none j = none
  byte_of (some value) j = get_elem? value j

  abbrev pub byte_at : Db → ℕ → ℕ → Option ℕ
  byte_at d i j = byte_of (slice_at d i) j

  -- The inode has a bucket, and every slice in it is whole.
  pub record IsSliced (d : Db) : Type 0 where
    pub there : K.has (ino_key number) d ≡ true
    pub whole :
        (i : ℕ) (value : Bytes) → i < 2 ^ 32 → slice_at d i ≡ some value → length value ≡ slice_size

  module _ (num offset : ℕ) (part : Bytes) (d : Db) where
    abbrev pub stored : Db
    stored =
        K.with_kv (ino_key number) (generate_data_key_with_number num)
          (stored_slice fresh num offset part (slice_at d num)) d

    pub write_slice-stored :
        num < 2 ^ 32
        → K.has (ino_key number) d ≡ true
        → write_slice fresh K number num offset part d ≡ ok (tt, stored)
    unfolding write_slice get_kv
    write_slice-stored small there =
        let e : num % 2 ^ 32 ≡ num = omega arith in
        rw (
          e,
          put_at K (ino_key number) (generate_data_key_with_number num)
              (stored_slice fresh num offset part (slice_at d num)) d there,
        )

    pub slice_at-stored :
        slice_at stored num ≡ some (stored_slice fresh num offset part (slice_at d num))
    slice_at-stored = rw (
      K.get_kv-with_kv (ino_key number) (generate_data_key_with_number num)
          (stored_slice fresh num offset part (slice_at d num)) d (ino_key number)
          (generate_data_key_with_number num),
      same_refl (ino_key number),
      same_refl (generate_data_key_with_number num),
    )

    pub slice_at-other :
        (i : ℕ) → num < 2 ^ 32 → i < 2 ^ 32 → num ≢ i → slice_at stored i ≡ slice_at d i
    slice_at-other i hn hi ne = rw (
      K.get_kv-with_kv (ino_key number) (generate_data_key_with_number num)
          (stored_slice fresh num offset part (slice_at d num)) d (ino_key number)
          (generate_data_key_with_number i),
      same_refl (ino_key number),
      slice_key-ne num i hn hi ne,
    )

    -- What is before the slice in the file, and in it up to the part.
    abbrev pub start : ℕ
    start = num * 32768 + offset

    pub size-stored : K.get_kv (ino_key number) k_size stored ≡ K.get_kv (ino_key number) k_size d
    unfolding generate_data_key_with_number
    size-stored = rw (
      K.get_kv-with_kv (ino_key number) (generate_data_key_with_number num)
          (stored_slice fresh num offset part (slice_at d num)) d (ino_key number) k_size,
      same_refl (ino_key number),
    )

    module _ (small : num < 2 ^ 32) (fits : offset + length part ≤ slice_size)
        (full : length (fresh num) ≡ slice_size) (h : IsSliced d) where
      old-whole :
          (old : Option Bytes)
          → slice_at d num ≡ old
          → length (slice_or old (fresh num)) ≡ slice_size
      old-whole none e = full
      old-whole (some value) e = h.whole num value small e

      length-at :
          (i : ℕ) (value : Bytes)
          → i < 2 ^ 32
          → slice_at stored i ≡ some value
          → length value ≡ slice_size
      length-at i value less e = elim (Bool-cases (num == i)) [
        | inl hit ↦
            let same_slice : num ≡ i = ground arith in
            let found : slice_at stored num ≡ some value = ap (slice_at stored) same_slice ∙ e in
            let stored_is : some (stored_slice fresh num offset part (slice_at d num))
                ≡ some value =
              sym slice_at-stored ∙ found in
            let old = old-whole (slice_at d num) refl in
            let long = length-stored_slice fresh num offset part fits full (slice_at d num) old in
            cc
        | inr miss ↦ h.whole i value less (sym (slice_at-other i small less (ground arith)) ∙ e)
      ]

      pub stored-IsSliced : IsSliced stored
      stored-IsSliced = record {
        there =
            K.has-with_kv (ino_key number) (generate_data_key_with_number num)
              (stored_slice fresh num offset part (slice_at d num)) d (ino_key number)
            ∙ h.there;
        whole = length-at;
      }

      pub slice_at-stays :
          (i : ℕ) (value : Bytes)
          → i < 2 ^ 32
          → slice_at d i ≡ some value
          → (new : Bytes) × (slice_at stored i ≡ some new)
      slice_at-stays i value less found = elim (Bool-cases (num == i)) [
        | inl hit ↦
            let same_slice : i ≡ num = ground arith in
            (
              stored_slice fresh num offset part (slice_at d num),
              ap (slice_at stored) same_slice ∙ slice_at-stored,
            )
        | inr miss ↦ (value, slice_at-other i small less (ground arith) ∙ found)
      ]

      pub byte_at-in :
          (i j : ℕ)
          → i < 2 ^ 32
          → j < slice_size
          → start ≤ i * 32768 + j
          → i * 32768 + j < start + length part
          → byte_at stored i j ≡ get_elem? part (i * 32768 + j - start)
      unfolding slice_size
      byte_at-in i j less inside low high =
          let same_slice : i ≡ num = omega arith in
          let e : i * 32768 + j - start ≡ j - offset = omega arith in
          rw (
            e,
            same_slice,
            slice_at-stored,
            stored_slice-in fresh num offset part fits full (slice_at d num) j
                (old-whole (slice_at d num) refl) (omega arith) (omega arith),
          )

      pub byte_at-out :
          (i j : ℕ) (value : Bytes)
          → i < 2 ^ 32
          → j < slice_size
          → slice_at d i ≡ some value
          → (i * 32768 + j < start) ⊎ (start + length part ≤ i * 32768 + j)
          → byte_at stored i j ≡ byte_at d i j
      unfolding slice_size
      byte_at-out i j value less inside found out = elim (Bool-cases (num == i)) [
        | inl e ↦
            let same_slice : num ≡ i = ground arith in
            let here : slice_at d num ≡ some value = rw same_slice found in
            rw (sym same_slice, slice_at-stored, here)
              (stored_slice-out fresh num offset part fits full value j inside (omega arith))
        | inr e ↦ rw (slice_at-other i small less (ground arith))
      ]
