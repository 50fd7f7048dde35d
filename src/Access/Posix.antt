-- ===== src/Access/Posix.antt =====
-- `checkout_access` decides the access rule of POSIX.
use dbfs.Prelude.{
  ℕ, ◌+◌, ◌-◌, ◌*◌, ◌/◌, ◌%◌, ◌<◌, ◌≡◌, refl, ap, ◌∙◌, sym, Bool-cases, inl, inr, Bool, true, false,
  ◌||◌, bit_and, arith, ◌==◌, ==_iff, if◌then◌else◌,
}
use dbfs.Prelude.Bits.{
  bit_and-low, every_below, every_below-at, bit_and-ones, bit_and-halves, bit_and-le_left,
}
use dbfs.Access.{checkout_access, drop_granted}
use dbfs.Access.Spec.{covers, posix_access, executable}

-- Equality of the answers of two tests.
agree : Bool → Bool → Bool
agree true b = b
agree false true = false
agree false false = true

agree→eq : (a b : Bool) → agree a b ≡ true → a ≡ b
unfolding agree
agree→eq a b h = ground arith

abbrev pair_test : ℕ → ℕ → Bool
pair_test mask digit = agree (mask - bit_and mask digit == 0) (covers digit mask)

-- All masks and digits.
covers_table : every_below 64 (λ v. pair_test (v % 8) (v / 8)) ≡ true
unfolding every_below agree
covers_table = refl

covers_pair : (mask digit : ℕ) → mask < 8 → digit < 8 → pair_test mask digit ≡ true
covers_pair mask digit hm hd =
    let low : (mask + 8 * digit) % 8 ≡ mask = omega arith in
    let high : (mask + 8 * digit) / 8 ≡ digit = omega arith in
    rw (low, high) at
      (every_below-at 64 (λ v. pair_test (v % 8) (v / 8)) (mask + 8 * digit) covers_table
        (omega arith))

-- Masking out the granted rights leaves nothing exactly when all are granted.
drop_granted-covers :
    (mask bits : ℕ) → mask < 8 → (drop_granted mask bits == 0) ≡ covers (bits % 8) mask
drop_granted-covers mask bits h =
    ap (λ v. mask - v == 0) (bit_and-low 3 mask bits h)
    ∙ agree→eq _ _ (covers_pair mask (bits % 8) h (omega arith))

-- The same for the one right that root may lack.
drop_one : (m bits : ℕ) → m < 2 → drop_granted m bits ≡ (if bits % 2 == 1 then 0 else m)
drop_one m bits h = ground (arith, bit_and-halves m bits, bit_and-le_left (m / 2) (bits / 2))

abbrev drop_bit : ℕ → ℕ → ℕ
drop_bit m bits = if bits % 2 == 1 then 0 else m

drop_bit-lt : (m bits : ℕ) → m < 2 → drop_bit m bits < 2
drop_bit-lt m bits h = ground arith

drop_three :
    (m a b c : ℕ)
    → m < 2
    → drop_granted (drop_granted (drop_granted m a) b) c ≡ drop_bit (drop_bit (drop_bit m a) b) c
drop_three m a b c h =
    ap (λ v. drop_granted (drop_granted v b) c) (drop_one m a h)
    ∙ ap (λ v. drop_granted v c) (drop_one (drop_bit m a) b ha)
    ∙ drop_one (drop_bit (drop_bit m a) b) c (drop_bit-lt (drop_bit m a) b ha)
  where
    ha : drop_bit m a < 2
    ha = drop_bit-lt m a h

root_executes :
    (mode mask : ℕ)
    → (drop_granted (drop_granted (drop_granted (bit_and mask 1) (mode / 64)) (mode / 8)) mode == 0)
      ≡ ((mask % 2 == 0) || executable mode)
root_executes mode mask =
    ap (λ v. v == 0)
      (ap (λ v. drop_granted (drop_granted (drop_granted v (mode / 64)) (mode / 8)) mode)
          (bit_and-ones 1 mask)
        ∙ drop_three (mask % 2) (mode / 64) (mode / 8) mode (omega arith))
    ∙ ground arith

posix_access-none :
    (owner group mode uid gid mask : ℕ)
    → mask ≡ 0
    → posix_access owner group mode uid gid mask ≡ true
unfolding posix_access
posix_access-none owner group mode uid gid mask e = rw e (ground arith)

asks_nothing : (mask : ℕ) (b : Bool) → (mask ≡ 0 → b ≡ true) → (if mask == 0 then true else b) ≡ b
asks_nothing mask b h = elim (Bool-cases (mask == 0)) [
  | inl e ↦ rw e (sym (h ((==_iff mask 0).0 e)))
  | inr e ↦ rw e
]

-- For every inode, every caller and every mask of rights below 8, `checkout_access` answers as
-- POSIX does.
pub checkout_access-eq-posix :
    (owner group mode uid gid mask : ℕ)
    → mask < 8
    → checkout_access owner group mode uid gid mask ≡ posix_access owner group mode uid gid mask
unfolding checkout_access posix_access
checkout_access-eq-posix owner group mode uid gid mask h =
    rw
      (
        root_executes mode mask,
        drop_granted-covers mask (mode / 64) h,
        drop_granted-covers mask (mode / 8) h,
        drop_granted-covers mask mode h,
      )
      (asks_nothing mask (posix_access owner group mode uid gid mask)
        (posix_access-none owner group mode uid gid mask))
