-- ===== src/Prelude/Words.antt =====
-- Machine arithmetic. A sum or difference of integers wraps, as in a release build of the program.
use dbfs.Prelude.{ℕ, ◌+◌, ◌-◌, ◌/◌, ◌%◌, ◌^◌, ◌==◌, if◌then◌else◌}
use dbfs.Prelude.Res.{Res, ok, panic}

-- `usize` and `u64`
abbrev pub add64 : ℕ → ℕ → ℕ
add64 a b = (a + b) % 2 ^ 64

abbrev pub sub64 : ℕ → ℕ → ℕ
sub64 a b = (a + 2 ^ 64 - b) % 2 ^ 64

-- `u32`
abbrev pub add32 : ℕ → ℕ → ℕ
add32 a b = (a + b) % 2 ^ 32

abbrev pub sub32 : ℕ → ℕ → ℕ
sub32 a b = (a + 2 ^ 32 - b) % 2 ^ 32

-- A division by zero panics.
abbrev pub checked_div : {E : Type 0} → ℕ → ℕ → Res E ℕ
checked_div a b = if b == 0 then panic else ok (a / b)

-- The integers, as which an `i64` stands; the program only copies those. `negsuc n` is -(n + 1).
pub data ℤ : Type 0 where
  pos : ℕ → ℤ
  negsuc : ℕ → ℤ
