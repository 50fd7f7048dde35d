-- ===== src/File/Contents.antt =====
-- `dbfs_common_write` as a whole: the file as one sequence of bytes, and its size.
use dbfs.Prelude.{
  ℕ, suc, ◌+◌, ◌-◌, ◌*◌, ◌/◌, ◌%◌, ◌^◌, ◌≤◌, ◌<◌, ◌≡◌, ◌⊎◌, inl, inr, ap, ◌∙◌, sym, true, max,
  Option, some, Bytes, length, same_refl, ltb, if◌then◌else◌, Bool-cases, arith,
}
use dbfs.Prelude.Buffer.{get_elem?}
use dbfs.Prelude.Res.{ok}
use dbfs.Prelude.Words.{add64}
use dbfs.Bytes.{be_bytes}
use dbfs.Common.Keys.{ino_key, slice_size, k_size, generate_data_key_with_number}
use dbfs.Kv.{Kv}
use dbfs.Store.Atomic.{Serves, write_tx-ok}
use dbfs.Store.Laws.{get_bucket_at, value_int_at, put_at}
use dbfs.Store.Tx.{State}
use dbfs.File.{begin_loop, finish, write_body, dbfs_common_write}
use dbfs.File.Round.{slice_at, byte_at, IsSliced}
use dbfs.File.Write.{Written, Fits, write_slices-Written}

module _ (fresh : ℕ → Bytes) (K : Kv) (number : ℕ) where
  open K use {Db}

  -- The byte at a position of a file.
  abbrev pub file_byte : Db → ℕ → Option ℕ
  file_byte d p = byte_at fresh K number d (p / 32768) (p % 32768)

  module _ (buf : Bytes) (offset : ℕ) where
    -- What a write leaves of a file that had a size.
    pub record FileWritten (size : ℕ) (d d' : Db) : Type 0 where
      pub sliced : IsSliced fresh K number d'
      pub size_at :
          K.get_kv (ino_key number) k_size d' ≡ some (be_bytes 8 (max size (offset + length buf)))
      pub new_bytes : (k : ℕ) → k < length buf → file_byte d' (offset + k) ≡ get_elem? buf k
      pub old_bytes :
          (p : ℕ) (value : Bytes)
          → p < 2 ^ 32 * 32768
          → slice_at fresh K number d (p / 32768) ≡ some value
          → (p < offset) ⊎ (offset + length buf ≤ p)
          → file_byte d' p ≡ file_byte d p

    unfoldable resized : ℕ → Db → Db
    resized size d =
        if ltb size (max size (add64 offset (length buf)))
        then K.with_kv (ino_key number) k_size (be_bytes 8 (max size (add64 offset (length buf)))) d
        else d

    module _ (room : offset + length buf < 2 ^ 32 * 32768) where
      begin_loop-Fits : Fits fresh K number buf (begin_loop fresh K offset)
      unfolding slice_size
      begin_loop-Fits = record { within = omega arith; behind = omega arith; room = omega arith }

      slice_at-resized :
          (size : ℕ) (d : Db) (i : ℕ)
          → slice_at fresh K number (resized size d) i ≡ slice_at fresh K number d i
      unfolding resized generate_data_key_with_number
      slice_at-resized size d i =
          elim (Bool-cases (ltb size (max size (add64 offset (length buf))))) [
            | inl more ↦ rw (
              more,
              K.get_kv-with_kv (ino_key number) k_size
                  (be_bytes 8 (max size (add64 offset (length buf)))) d (ino_key number)
                  (generate_data_key_with_number i),
              same_refl (ino_key number),
            )
            | inr less ↦ rw less
          ]

      finish-resized :
          (size : ℕ) (d : Db)
          → K.has (ino_key number) d ≡ true
          → finish fresh K number size offset (some (length buf)) d
            ≡ ok (some (length buf), resized size d)
      unfolding resized
      finish-resized size d there =
          elim (Bool-cases (ltb size (max size (add64 offset (length buf))))) [
            | inl more ↦ rw (
              more,
              put_at K (ino_key number) k_size (be_bytes 8 (max size (add64 offset (length buf)))) d
                  there,
            )
            | inr less ↦ rw less
          ]

      size_at-resized :
          (size : ℕ) (d : Db)
          → K.get_kv (ino_key number) k_size d ≡ some (be_bytes 8 size)
          → K.get_kv (ino_key number) k_size (resized size d)
            ≡ some (be_bytes 8 (max size (offset + length buf)))
      unfolding resized
      size_at-resized size d h =
          let e : add64 offset (length buf) ≡ offset + length buf = omega arith in
          elim (Bool-cases (ltb size (max size (add64 offset (length buf))))) [
            | inl more ↦ rw (
              more,
              K.get_kv-with_kv (ino_key number) k_size
                  (be_bytes 8 (max size (add64 offset (length buf)))) d (ino_key number) k_size,
              same_refl (ino_key number),
              e,
            )
            | inr less ↦
                let m : max size (offset + length buf) ≡ size = ground arith in rw (less, m, h)
          ]

      IsSliced-resized :
          (size : ℕ) (d : Db) → IsSliced fresh K number d → IsSliced fresh K number (resized size d)
      unfolding resized
      IsSliced-resized size d h = record {
        there = elim (Bool-cases (ltb size (max size (add64 offset (length buf))))) [
          | inl more ↦ rw more (
              K.has-with_kv (ino_key number) k_size
                (be_bytes 8 (max size (add64 offset (length buf)))) d (ino_key number)
              ∙ h.there)
          | inr less ↦ rw less h.there
        ];
        whole = λ i value less e. h.whole i value less (sym (slice_at-resized size d i) ∙ e);
      }

      resized-FileWritten :
          (size : ℕ) (d d' : Db)
          → K.get_kv (ino_key number) k_size d ≡ some (be_bytes 8 size)
          → Written fresh K number buf (begin_loop fresh K offset) d d'
          → FileWritten size d (resized size d')
      unfolding slice_size
      resized-FileWritten size d d' h w = record {
        sliced = IsSliced-resized size d' w.sliced;
        size_at = size_at-resized size d' (w.size_kept ∙ h);
        new_bytes = λ k less.
            let p = offset + k in
            let e : 0 + (p / 32768 * 32768 + p % 32768 - (offset / 32768 * 32768 + offset % 32768))
                ≡ k =
              omega arith in
            rw (slice_at-resized size d' (p / 32768)) (
              w.new_bytes (p / 32768) (p % 32768) (omega arith) (omega arith) (omega arith)
                (omega arith)
              ∙ ap (get_elem? buf) e);
        old_bytes = λ p value less found out. rw (slice_at-resized size d' (p / 32768)) (
            w.old_bytes (p / 32768) (p % 32768) value (omega arith) (omega arith) found
              (omega arith));
      }

      -- A write that ends within 2^32 slices, to an inode whose stored slices are whole and whose size
      -- is stored, over a database that serves every transaction and memory that is handed out in
      -- whole slices, returns the length of its buffer. The bytes from its offset on are those of
      -- the buffer, every other byte of a slice that was stored stays, the stored slices are whole,
      -- and the size is the greater of the old one and the end of the write.
      pub dbfs_common_write-FileWritten :
          Serves K
          → ((n : ℕ) → length (fresh n) ≡ slice_size)
          → (size : ℕ) → size < 2 ^ 64
          → (s : State Db) → K.get_kv (ino_key number) k_size s.db ≡ some (be_bytes 8 size)
          → IsSliced fresh K number s.db
          → (d' : Db) × (dbfs_common_write fresh K number buf offset s
              ≡ (ok (some (length buf)), record s { db = d' }))
            × FileWritten size s.db d'
      unfolding dbfs_common_write write_body
      dbfs_common_write-FileWritten serves full size fits s h sliced =
          let (d', run, w) =
            write_slices-Written fresh K number buf full (suc (length buf))
              (begin_loop fresh K offset) s.db (omega arith) begin_loop-Fits sliced in
          let body : write_body fresh K number buf offset s.db
              ≡ ok (some (length buf), resized size d') =
            rw (
              get_bucket_at K (ino_key number) s.db sliced.there,
              value_int_at K 8 size (ino_key number) k_size s.db h fits,
              run,
              finish-resized size d' w.sliced.there,
            ) in
          (
            resized size d',
            write_tx-ok K (write_body fresh K number buf offset) s serves body,
            resized-FileWritten size s.db d' h w,
          )
