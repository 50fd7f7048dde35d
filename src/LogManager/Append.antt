-- ===== src/LogManager/Append.antt =====
-- What was appended is read back, also after more was appended.
use dbfs.Prelude.{ℕ, ◌+◌, ◌^◌, ◌≤◌, ◌<◌, ◌≡◌, refl, ◌∙◌, Bytes, length, arith}
use dbfs.Prelude.Res.{ok}
use dbfs.Prelude.Words.{add64}
use dbfs.LogManager.{BlockDevice, LogManager, append_data, read_data}

-- A device that takes every write, gives it back, and keeps what lies before it.
pub record Keeps (D : BlockDevice) : Type 0 where
  pub takes :
      (pos : ℕ) (bytes : Bytes) (d : D.Device) → (D.write_at pos bytes d).0 ≡ ok (length bytes)
  pub gives_back :
      (pos : ℕ) (bytes : Bytes) (d : D.Device)
      → D.read_at pos (length bytes) (D.write_at pos bytes d).1 ≡ ok (length bytes, bytes)
  pub keeps_before :
      (pos : ℕ) (bytes : Bytes) (d : D.Device) (front len : ℕ)
      → front + len ≤ pos
      → D.read_at front len (D.write_at pos bytes d).1 ≡ D.read_at front len d

module _ (D : BlockDevice) (log : LogManager D) (a b : Bytes) where
  -- Two pieces that are appended one after the other.
  abbrev pub BothThere : Type 0
  BothThere =
      let first = append_data D a log in
      let second = append_data D b first.1 in
      (first.0 ≡ ok log.next_append_pos)
      × (second.0 ≡ ok (log.next_append_pos + length a))
      × (read_data D log.next_append_pos (length a) second.1 ≡ ok (length a, a))
      × (read_data D (log.next_append_pos + length a) (length b) second.1 ≡ ok (length b, b))
      × (second.1.next_append_pos ≡ log.next_append_pos + length a + length b)

module _ (D : BlockDevice) (keeps : Keeps D) where
  pub after_append :
      (bytes : Bytes) (l : LogManager D)
      → append_data D bytes l ≡ (
        ok l.next_append_pos,
        record {
          device = (D.write_at l.next_append_pos bytes l.device).1;
          next_append_pos = add64 l.next_append_pos (length bytes);
        },
      )
  unfolding append_data
  after_append bytes l = rw (keeps.takes l.next_append_pos bytes l.device)

module _ (D : BlockDevice) (keeps : Keeps D) (log : LogManager D) (a b : Bytes) where
  -- On a device that keeps what was written, with room for both pieces below `2 ^ 64`: each piece goes
  -- behind what was there, and both are read back at the positions that the appends returned.
  pub append-read : log.next_append_pos + length a + length b < 2 ^ 64 → BothThere D log a b
  unfolding read_data
  append-read fits =
      let at : add64 log.next_append_pos (length a) ≡ log.next_append_pos + length a =
        omega arith in
      let end : add64 (log.next_append_pos + length a) (length b)
          ≡ log.next_append_pos + length a + length b =
        omega arith in
      let pos = log.next_append_pos in
      let d1 = (D.write_at pos a log.device).1 in
      rw
        (
          after_append D keeps a log,
          at,
          after_append D keeps b (record { device = d1; next_append_pos = pos + length a }),
          end,
        )
        (
          refl,
          refl,
          keeps.keeps_before (pos + length a) b d1 pos (length a) (omega arith)
              ∙ keeps.gives_back pos a log.device,
          keeps.gives_back (pos + length a) b d1,
          refl,
        )
