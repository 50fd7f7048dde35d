-- ===== src/Tests/LogManager.antt =====
-- Two pieces appended to a device in memory, and the checksum of a known text.
use dbfs.Prelude.{
  ℕ, zero, suc, ◌+◌, ◌^◌, ◌≡◌, ◌≤◌, ◌<◌, refl, ap, ◌∙◌, Bytes, [], ◌∷◌, codes, length, ◌==◌,
  if◌then◌else◌, arith,
}
use dbfs.Prelude.Res.{ok}
use dbfs.LogManager.{BlockDevice, LogManager, crc32}
use dbfs.LogManager.Append.{Keeps, BothThere, append-read}

unfoldable pub cells : ℕ → ℕ → (ℕ → ℕ) → Bytes
cells pos zero d = []
cells pos (suc n) d = d pos ∷ cells (pos + 1) n d

pub laid : ℕ → Bytes → (ℕ → ℕ) → ℕ → ℕ
laid pos [] d i = d i
laid pos (b ∷ bs) d i = let rest = laid (pos + 1) bs d i in if i == pos then b else rest

laid-before : (pos : ℕ) (bytes : Bytes) (d : ℕ → ℕ) (i : ℕ) → i < pos → laid pos bytes d i ≡ d i
unfolding laid
laid-before pos [] d i h = refl
laid-before pos (b ∷ bs) d i h = ground (arith, laid-before (pos + 1) bs d i (omega arith))

cells_same :
    (pos n : ℕ) (f g : ℕ → ℕ)
    → ((i : ℕ) → pos ≤ i → i < pos + n → f i ≡ g i)
    → cells pos n f ≡ cells pos n g
unfolding cells
cells_same pos zero f g h = refl
cells_same pos (suc n) f g h = rw (h pos (omega arith) (omega arith)) (
    ap (λ l. g pos ∷ l)
      (cells_same (pos + 1) n f g (λ i low high. h i (omega arith) (omega arith))))

laid-behind :
    (pos b : ℕ) (bs : Bytes) (d : ℕ → ℕ) (i : ℕ)
    → pos + 1 ≤ i
    → laid pos (b ∷ bs) d i ≡ laid (pos + 1) bs d i
unfolding laid
laid-behind pos b bs d i h = ground arith

laid-at : (pos b : ℕ) (bs : Bytes) (d : ℕ → ℕ) → laid pos (b ∷ bs) d pos ≡ b
unfolding laid
laid-at pos b bs d = ground arith

cells-laid :
    (pos : ℕ) (bytes : Bytes) (d : ℕ → ℕ) → cells pos (length bytes) (laid pos bytes d) ≡ bytes
unfolding cells
cells-laid pos [] d = refl
cells-laid pos (b ∷ bs) d = rw (laid-at pos b bs d) (
    ap (λ l. b ∷ l)
      (cells_same (pos + 1) (length bs) (laid pos (b ∷ bs) d) (laid (pos + 1) bs d)
          (λ i low high. laid-behind pos b bs d i low)
        ∙ cells-laid (pos + 1) bs d))

-- A device of one number for each position.
abbrev pub tape : BlockDevice
tape = record {
  Device = ℕ → ℕ;
  read_at = λ pos len d. ok (len, cells pos len d);
  write_at = λ pos bytes d. (ok (length bytes), laid pos bytes d);
  size = λ d. 2 ^ 20;
}

pub tape-Keeps : Keeps tape
tape-Keeps = record {
  takes = λ pos bytes d. refl;
  gives_back = λ pos bytes d. ap (λ v. ok (length bytes, v)) (cells-laid pos bytes d);
  keeps_before = λ pos bytes d front len h.
      ap (λ v. ok (len, v))
        (cells_same front len (laid pos bytes d) d
          (λ i low high. laid-before pos bytes d i (omega arith)));
}

abbrev pub blank : LogManager tape
blank = record { device = λ i. 0; next_append_pos = 4096 }

append-read_example : BothThere tape blank (codes "one") (codes "two")
append-read_example = append-read tape tape-Keeps blank (codes "one") (codes "two") (omega arith)

crc32_text : crc32 (codes "123456789") ≡ 0xCBF43926
unfolding crc32
crc32_text = refl
