-- ===== src/LogManager.antt =====
-- src/log_manager.rs: data that is only appended, on a block device that is a parameter.
pub mod Append
use dbfs.Prelude.{ℕ, zero, suc, ◌/◌, ◌%◌, Bytes, [], ◌∷◌, bit_xor, length, ◌==◌, if◌then◌else◌}
use dbfs.Prelude.Res.{ok, err, panic}
use dbfs.Prelude.Words.{add64}
use dbfs.Common.Error.{DbfsResult}

-- `BlockDevice`: a read into a buffer of the given length gives the count that it returns and the bytes
-- that it puts at the buffer's start; where it puts fewer, the rest of the buffer stays.
pub record BlockDevice : Type 1 where
  pub Device : Type 0
  pub read_at : ℕ → ℕ → Device → DbfsResult (ℕ × Bytes)
  pub write_at : ℕ → Bytes → Device → DbfsResult ℕ × Device
  pub size : Device → ℕ

-- One bit of a byte is taken into the checksum.
unfoldable pub crc_bit : ℕ → ℕ
crc_bit crc = if crc % 2 == 0 then crc / 2 else bit_xor (crc / 2) 0xEDB88320

unfoldable pub crc_bits : ℕ → ℕ → ℕ
unfolding crc_bit
crc_bits zero crc = crc
crc_bits (suc n) crc = crc_bits n (crc_bit crc)

unfoldable pub crc_bytes : ℕ → Bytes → ℕ
unfolding crc_bits
crc_bytes crc [] = crc
crc_bytes crc (b ∷ bs) = crc_bytes (crc_bits 8 (bit_xor crc b)) bs

unfoldable pub crc32 : Bytes → ℕ
unfolding crc_bytes
crc32 bytes = bit_xor (crc_bytes 0xFFFFFFFF bytes) 0xFFFFFFFF

module _ (D : BlockDevice) where
  open D use {Device}

  pub record LogManager : Type 0 where
    pub device : Device
    pub next_append_pos : ℕ

  abbrev written : LogManager → ℕ → DbfsResult ℕ × Device → DbfsResult ℕ × LogManager
  written log len (ok n, d) = (
    ok log.next_append_pos,
    record { device = d; next_append_pos = add64 log.next_append_pos len },
  )
  written log len (err e, d) = (err e, record log { device = d })
  written log len (panic, d) = (panic, record log { device = d })

  -- The position that the bytes are written to; their checksum is not used.
  unfoldable pub append_data : Bytes → LogManager → DbfsResult ℕ × LogManager
  append_data bytes log =
      written log (length bytes) (D.write_at log.next_append_pos bytes log.device)

  unfoldable pub read_data : ℕ → ℕ → LogManager → DbfsResult (ℕ × Bytes)
  read_data pos len log = D.read_at pos len log.device
