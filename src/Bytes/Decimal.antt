-- ===== src/Bytes/Decimal.antt =====
-- `str::parse::<usize>` reads what `format!("{}", n)` writes.
use dbfs.Prelude.{
  ℕ, zero, suc, ◌+◌, ◌-◌, ◌*◌, ◌/◌, ◌%◌, ◌^◌, ◌≤◌, ◌<◌, ◌≡◌, refl, sym, ap, ◌∙◌, some, [], ◌∷◌,
  ◌++◌, append_assoc, append-nil, Bytes, arith,
}
use native.Mathlib.Decide.{dec_lt}
use dbfs.Bytes.{decimal, decimal_within, parse_digits, parse_usize}

-- One digit is read.
digit_step :
    (acc d : ℕ) (cs : Bytes)
    → d < 10
    → acc * 10 + d < 2 ^ 64
    → parse_digits acc ((48 + d) ∷ cs) ≡ parse_digits (acc * 10 + d) cs
unfolding parse_digits
digit_step acc d cs small fits =
    let e : acc * 10 + (48 + d - 48) ≡ acc * 10 + d = omega arith in rw e (ground arith)

decimal_within-one : (fuel n : ℕ) → n < 10 → decimal_within (suc fuel) n ≡ (48 + n) ∷ []
unfolding decimal_within
decimal_within-one fuel n h = ground arith

decimal_within-more :
    (fuel n : ℕ)
    → 10 ≤ n
    → decimal_within (suc fuel) n ≡ decimal_within fuel (n / 10) ++ ((48 + n % 10) ∷ [])
unfolding decimal_within
decimal_within-more fuel n h = ground arith

starts_with_digit :
    (n : ℕ) (rest : Bytes)
    → n < 10
    → parse_usize ((48 + n) ∷ rest) ≡ parse_digits 0 ((48 + n) ∷ rest)
unfolding parse_usize
starts_with_digit n [] h = ground arith
starts_with_digit n (c ∷ cs) h = ground arith

-- The digits of `n`, with more text behind them, leave the parser at `n`.
parse-decimal_within :
    (fuel n : ℕ) (rest : Bytes)
    → n < fuel
    → n < 2 ^ 64
    → parse_digits 0 (decimal_within fuel n ++ rest) ≡ parse_digits n rest
parse-decimal_within zero n rest h fits = absurd (omega arith)
parse-decimal_within (suc fuel) n rest h fits = elim (dec_lt n 10) [
  | yes one ↦
      rw (decimal_within-one fuel n one)
        (digit_step 0 n rest one (omega arith) ∙ ap (λ v. parse_digits v rest) (omega arith))
  | no more ↦
      rw (decimal_within-more fuel n (omega arith), append_assoc)
        (parse-decimal_within fuel (n / 10) ((48 + n % 10) ∷ rest) (omega arith) (omega arith)
          ∙ digit_step (n / 10) (n % 10) rest (omega arith) (omega arith)
          ∙ ap (λ v. parse_digits v rest) (omega arith))
]

-- No digit of a number is a plus sign, so the parser starts at the first digit.
plus_free :
    (fuel n : ℕ) (rest : Bytes)
    → n < fuel
    → parse_usize (decimal_within fuel n ++ rest) ≡ parse_digits 0 (decimal_within fuel n ++ rest)
plus_free zero n rest h = absurd (omega arith)
plus_free (suc fuel) n rest h = elim (dec_lt n 10) [
  | yes one ↦ rw (decimal_within-one fuel n one) (starts_with_digit n rest one)
  | no more ↦
      rw (decimal_within-more fuel n (omega arith), append_assoc)
        (plus_free fuel (n / 10) ((48 + n % 10) ∷ rest) (omega arith))
]

-- `str::parse::<usize>` gives back every `usize` that `format!("{}", n)` wrote.
pub parse_usize-decimal : (n : ℕ) → n < 2 ^ 64 → parse_usize (decimal n) ≡ some n
unfolding decimal
parse_usize-decimal n fits =
    ap parse_usize (sym (append-nil (decimal_within (suc n) n)))
    ∙ plus_free (suc n) n [] (omega arith)
    ∙ parse-decimal_within (suc n) n [] (omega arith) fits
    ∙ unfold parse_digits in refl
