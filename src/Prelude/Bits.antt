-- ===== src/Prelude/Bits.antt =====
-- Laws of `bit_and` at variables. The native operation is defined by its binary digits; the laws
-- that the permission tests need follow from the law of the lowest digit.
use Prim.Native.Nat.{
  ℕ, zero, suc, ◌+◌, ◌-◌, ◌*◌, ◌/◌, ◌%◌, ◌^◌, ◌≤◌, ◌<◌, min, bit_and, digits, bit_and-bitwise,
}
use mathlib.Core.Path.{◌≡◌, refl, sym, ap, ◌∙◌}
use mathlib.Core.Bool.{Bool, true, ◌&&◌}
use native.Mathlib.Omega.{arith}
use native.Mathlib.Nat.{pow-suc, div-add-mod, mod-lt, mod-eq_of_lt, add-mul-mod_self_left}

-- The digit recursion of `bit_and`, cut off after `depth` digits.
abbrev meet : ℕ → ℕ → ℕ → ℕ
meet depth x y = digits (λ _. zero) min depth x y

-- Any two depths that are enough for `x` give the same digits.
meet_enough : (d e x y : ℕ) → x ≤ d → x ≤ e → meet d x y ≡ meet e x y
meet_enough zero zero x y p q = refl
meet_enough (suc d) zero zero y p q = refl
meet_enough (suc d) zero (suc x) y p q = absurd (omega arith)
meet_enough zero (suc e) zero y p q = refl
meet_enough zero (suc e) (suc x) y p q = absurd (omega arith)
meet_enough (suc d) (suc e) zero y p q = refl
meet_enough (suc d) (suc e) (suc x) y p q =
    omega (arith, meet_enough d e (suc x / 2) (y / 2) (omega arith) (omega arith))

-- The law of the lowest digit.
pub bit_and-halves : (x y : ℕ) → bit_and x y ≡ 2 * bit_and (x / 2) (y / 2) + min (x % 2) (y % 2)
bit_and-halves zero y = omega (arith, bit_and-bitwise 0 y, bit_and-bitwise 0 (y / 2))
bit_and-halves (suc x) y = omega (
  arith,
  bit_and-bitwise (suc x) y,
  bit_and-bitwise (suc x / 2) (y / 2),
  meet_enough x (suc x / 2) (suc x / 2) (y / 2) (omega arith) (omega arith),
)

-- Induction over the digits of the left operand.
bit_and-le_within : (depth x y : ℕ) → x ≤ depth → (bit_and x y ≤ x) × (bit_and x y ≤ y)
bit_and-le_within zero zero y le = omega (arith, bit_and-bitwise 0 y)
bit_and-le_within zero (suc x) y le = absurd (omega arith)
bit_and-le_within (suc depth) zero y le = omega (arith, bit_and-bitwise 0 y)
bit_and-le_within (suc depth) (suc x) y le =
    let half : (bit_and (suc x / 2) (y / 2) ≤ suc x / 2) × (bit_and (suc x / 2) (y / 2) ≤ y / 2) =
      bit_and-le_within depth (suc x / 2) (y / 2) (omega arith) in
    omega (arith, bit_and-halves (suc x) y)

pub bit_and-le_left : (x y : ℕ) → bit_and x y ≤ x
bit_and-le_left x y = (bit_and-le_within x x y (omega arith)).0

pub bit_and-le_right : (x y : ℕ) → bit_and x y ≤ y
bit_and-le_right x y = (bit_and-le_within x x y (omega arith)).1

-- Halving commutes with taking the low digits.
half-mod : (p y : ℕ) → 0 < p → ((y % (2 * p)) / 2 ≡ (y / 2) % p) × ((y % (2 * p)) % 2 ≡ y % 2)
half-mod p y h = omega (arith, remainder)
  where
    low : y / 2 % p < p
    low = mod-lt (y / 2) h

    split : y ≡ 2 * (y / 2 % p) + y % 2 + 2 * p * (y / 2 / p)
    split = omega (arith, div-add-mod (y / 2) p)

    remainder : y % (2 * p) ≡ 2 * (y / 2 % p) + y % 2
    remainder =
        ap (λ v. v % (2 * p)) split
        ∙ add-mul-mod_self_left (2 * (y / 2 % p) + y % 2) (2 * p) (y / 2 / p)
        ∙ mod-eq_of_lt {m = 2 * p} (omega (arith, low))

two-pow : (k : ℕ) → (2 ^ suc k ≡ 2 * 2 ^ k) × (0 < 2 ^ k)
two-pow zero = (refl, omega arith)
two-pow (suc k) = omega (arith, two-pow k, pow-suc 2 (suc k), pow-suc 2 k)

halves_low :
    (p x y : ℕ)
    → 0 < p
    → bit_and (x / 2) (y / 2) ≡ bit_and (x / 2) (y / 2 % p)
    → bit_and x y ≡ bit_and x (y % (2 * p))
halves_low p x y h ih =
    bit_and-halves x y
    ∙ rw (ih, ← (half-mod p y h).0, ← (half-mod p y h).1) (sym (bit_and-halves x (y % (2 * p))))

-- Only the low digits of `y` count where `x` has only low digits.
pub bit_and-low : (k x y : ℕ) → x < 2 ^ k → bit_and x y ≡ bit_and x (y % 2 ^ k)
bit_and-low zero x y h = omega (arith, bit_and-le_left x y, bit_and-le_left x (y % 1))
bit_and-low (suc k) x y h = rw (two-pow k).0 (
    halves_low (2 ^ k) x y (two-pow k).1 (bit_and-low k (x / 2) (y / 2) (omega (arith, two-pow k))))

-- A mask of all ones below `2 ^ k` keeps the low digits.
pub bit_and-ones : (k x : ℕ) → bit_and x (2 ^ k - 1) ≡ x % 2 ^ k
bit_and-ones zero x = omega (arith, bit_and-le_right x 0)
bit_and-ones (suc k) x =
    let half : bit_and (x / 2) (2 ^ k - 1) ≡ x / 2 % 2 ^ k = bit_and-ones k (x / 2) in
    let odd : ((2 ^ suc k - 1) / 2 ≡ 2 ^ k - 1) × ((2 ^ suc k - 1) % 2 ≡ 1) =
      omega (arith, two-pow k) in
    bit_and-halves x (2 ^ suc k - 1)
    ∙ rw (odd.0, odd.1, half, (two-pow k).0) (omega (arith, half-mod (2 ^ k) x (two-pow k).1))

-- Over a small range, a test that holds of every value by evaluation.
unfoldable pub every_below : ℕ → (ℕ → Bool) → Bool
every_below zero test = true
every_below (suc n) test = test n && every_below n test

pub every_below-at :
    (n : ℕ) (test : ℕ → Bool) (x : ℕ) → every_below n test ≡ true → x < n → test x ≡ true
unfolding every_below
every_below-at zero test x h lt = absurd (omega arith)
every_below-at (suc n) test x h lt = ground (arith, every_below-at n test x)
