-- ===== src/Bytes/BigEndian.antt =====
-- `from_be_bytes` undoes `to_be_bytes`, and the other way round.
use native.Mathlib.Nat.{pow-suc, div-add-mod, mod-lt, mod-eq_of_lt, add-mul-mod_self_left}
use dbfs.Prelude.{
  ℕ, zero, suc, ◌+◌, ◌*◌, ◌/◌, ◌%◌, ◌^◌, ◌<◌, ◌≡◌, refl, sym, ap, ◌∙◌, length, arith,
}
use dbfs.Prelude.Res.{ok}
use dbfs.Bytes.{be_bytes, be_fold, from_be, int_of}

-- The remainder by `b * p` has a digit in base `b` above the remainder by `p`.
pub mod-digit : (b p n : ℕ) → 0 < b → 0 < p → n % (p * b) ≡ n / p % b * p + n % p
mod-digit b p n hb hp =
    ap (λ v. v % (p * b)) split
    ∙ add-mul-mod_self_left (n / p % b * p + n % p) (p * b) (n / p / b)
    ∙ mod-eq_of_lt {m = p * b} small
  where
    digit : n / p % b < b
    digit = mod-lt (n / p) hb

    low : n % p < p
    low = mod-lt n hp

    split : n ≡ n / p % b * p + n % p + p * b * (n / p / b)
    split = omega (arith, div-add-mod n p, ap (λ (v : ℕ). p * v) (div-add-mod (n / p) b))

    small : n / p % b * p + n % p < p * b
    small = grind (arith, digit, low)

pow256-pos : (k : ℕ) → 0 < 256 ^ k
pow256-pos zero = omega arith
pow256-pos (suc k) = omega (arith, pow256-pos k, pow-suc 256 k)

be_fold-be_bytes : (w acc n : ℕ) → be_fold acc (be_bytes w n) ≡ acc * 256 ^ w + n % 256 ^ w
unfolding be_fold be_bytes
be_fold-be_bytes zero acc n = omega arith
be_fold-be_bytes (suc w) acc n =
    be_fold-be_bytes w (acc * 256 + n / 256 ^ w % 256) n
    ∙ rw (pow-suc 256 w) (omega (arith, mod-digit 256 (256 ^ w) n (omega arith) (pow256-pos w)))

-- Encoding and decoding keeps a number that fits into the width.
pub from_be-be_bytes : (w n : ℕ) → n < 256 ^ w → from_be (be_bytes w n) ≡ n
unfolding from_be
from_be-be_bytes w n h = be_fold-be_bytes w 0 n ∙ omega (arith, mod-eq_of_lt h)

pub length-be_bytes : (w n : ℕ) → length (be_bytes w n) ≡ w
unfolding be_bytes
length-be_bytes zero n = refl
length-be_bytes (suc w) n = ap suc (length-be_bytes w n)

-- What `put(key, n.to_be_bytes())` stores, the macro of the same width reads back.
pub int_of-be_bytes : {E : Type 0} (w n : ℕ) → n < 256 ^ w → int_of {E = E} w (be_bytes w n) ≡ ok n
unfolding int_of
int_of-be_bytes w n h = ground (arith, length-be_bytes w n, from_be-be_bytes w n h)

-- The names of the buckets of two inodes are equal only for one inode.
pub be_bytes-injective :
    (w a b : ℕ) → a < 256 ^ w → b < 256 ^ w → be_bytes w a ≡ be_bytes w b → a ≡ b
be_bytes-injective w a b ha hb e =
    sym (from_be-be_bytes w a ha) ∙ ap from_be e ∙ from_be-be_bytes w b hb
