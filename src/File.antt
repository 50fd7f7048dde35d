-- ===== src/File.antt =====
-- src/file.rs: the contents of a file, in slices of SLICE_SIZE bytes under the keys `zdata:<number>`.
pub mod Slices
pub mod Round
pub mod Write
pub mod Contents
use dbfs.Prelude.{
  ℕ, zero, suc, ◌+◌, ◌-◌, ◌/◌, ◌%◌, ◌^◌, min, max, ◌&&◌, Option, none, some, Bytes, length, take,
  drop, ltb, ◌==◌, if◌then◌else◌,
}
use dbfs.Prelude.Buffer.{overlay}
use dbfs.Prelude.Words.{add64}
use dbfs.Common.Keys.{ino_key, generate_data_key_with_number, slice_size, k_size}
use dbfs.Kv.{Kv}
use dbfs.Store.Tx.{
  Tx, Fs, pure, ◌>>=◌, ◌>>◌, when, get_bucket, get_kv, put, put_int, value_int, write_tx,
}

-- The state of the loop of `dbfs_common_write`.
pub record WriteLoop : Type 0 where
  pub count : ℕ
  pub offset : ℕ
  pub num : ℕ

abbrev pub slice_or : Option Bytes → Bytes → Bytes
slice_or none bytes = bytes
slice_or (some value) bytes = value

-- What the allocator's memory holds when it is handed out for a slice is not set by the program:
-- `fresh` gives it for each slice number. It is a parameter, as an allocation that fails is not
-- modelled.
module _ (fresh : ℕ → Bytes) where
  -- The slice that is stored: a whole one, or the part laid over the old slice or over fresh memory.
  unfoldable pub stored_slice : ℕ → ℕ → Bytes → Option Bytes → Bytes
  stored_slice num offset part old =
      if length part == slice_size && offset == 0
      then part
      else overlay (slice_or old (fresh num)) offset part

  module _ (K : Kv) where
    open K use {Db}

    unfoldable pub write_slice : ℕ → ℕ → ℕ → Bytes → Tx Db (Unit {0})
    unfolding stored_slice
    write_slice number num offset part =
        let key = generate_data_key_with_number (num % 2 ^ 32) in
        do
          old ← get_kv K (ino_key number) key
          put K (ino_key number) key (stored_slice num offset part old)

    -- The length of the part that a round writes.
    abbrev pub part_length : Bytes → WriteLoop → ℕ
    part_length buf st = min (length buf - st.count) (slice_size - st.offset)

    abbrev pub next_slice : Bytes → WriteLoop → WriteLoop
    next_slice buf st = record {
      count = st.count + part_length buf st;
      offset = (st.offset + part_length buf st) % slice_size;
      num = st.num + 1;
    }

    -- The loop on fuel; `none` means that the fuel ran out.
    unfoldable pub write_slices : ℕ → ℕ → Bytes → WriteLoop → Tx Db (Option ℕ)
    unfolding write_slice
    write_slices zero number buf st = pure none
    write_slices (suc fuel) number buf st =
        let rest = write_slices fuel number buf (next_slice buf st) in
        do
          write_slice number st.num st.offset (take (part_length buf st) (drop st.count buf))
          if (next_slice buf st).count == length buf then pure (some (length buf)) else rest

    abbrev pub finish : ℕ → ℕ → ℕ → Option ℕ → Tx Db (Option ℕ)
    finish number size offset none = pure none
    finish number size offset (some count) = do
      when (ltb size (max size (add64 offset count)))
          (put_int K 8 (ino_key number) k_size (max size (add64 offset count)))
      pure (some count)

    -- Before the first round.
    abbrev pub begin_loop : ℕ → WriteLoop
    begin_loop offset = record {
      count = 0;
      offset = offset % slice_size;
      num = offset / slice_size;
    }

    unfoldable pub write_body : ℕ → Bytes → ℕ → Tx Db (Option ℕ)
    unfolding write_slices
    write_body number buf offset = do
      get_bucket K (ino_key number)
      size ← value_int K 8 (ino_key number) k_size
      written ← write_slices (suc (length buf)) number buf (begin_loop offset)
      finish number size offset written

    -- The number of bytes, or `none` if the fuel ran out.
    unfoldable pub dbfs_common_write : ℕ → Bytes → ℕ → Fs Db (Option ℕ)
    unfolding write_body
    dbfs_common_write number buf offset = write_tx K (write_body number buf offset)
