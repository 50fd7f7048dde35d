-- ===== src/Bytes.antt =====
-- The encodings of numbers in a bucket: `to_be_bytes` and `from_be_bytes` of Rust's integers, the
-- macros `u16!`, `u32!`, `u64!`, `usize!` of src/lib.rs, and the decimal text that `format!("{}", n)`
-- writes and `str::parse::<usize>` reads back.
pub mod BigEndian
pub mod Decimal
use dbfs.Prelude.{
  ℕ, zero, suc, ◌+◌, ◌-◌, ◌*◌, ◌/◌, ◌%◌, ◌^◌, Bool, ◌&&◌, Option, none, some, List, [], ◌∷◌, ◌++◌,
  Bytes, length, ltb, leb, ◌==◌, if◌then◌else◌,
}
use dbfs.Prelude.Res.{Res, ok, panic}

-- `n.to_be_bytes()` of an integer of `w` bytes: the most significant byte first.
unfoldable pub be_bytes : ℕ → ℕ → Bytes
be_bytes zero n = []
be_bytes (suc w) n = (n / 256 ^ w % 256) ∷ be_bytes w n

pub be_fold : ℕ → Bytes → ℕ
be_fold acc [] = acc
be_fold acc (b ∷ bs) = be_fold (acc * 256 + b) bs

-- `from_be_bytes` of an array of any length.
unfoldable pub from_be : Bytes → ℕ
unfolding be_fold
from_be bs = be_fold 0 bs

-- `from_be_bytes(value.try_into().unwrap())`: the conversion to an array of `w` bytes panics on a
-- slice of another length.
unfoldable pub int_of : {E : Type 0} → ℕ → Bytes → Res E ℕ
int_of w value = if length value == w then ok (from_be value) else panic

abbrev pub u16_of : {E : Type 0} → Bytes → Res E ℕ
u16_of value = int_of 2 value

abbrev pub u32_of : {E : Type 0} → Bytes → Res E ℕ
u32_of value = int_of 4 value

abbrev pub u64_of : {E : Type 0} → Bytes → Res E ℕ
u64_of value = int_of 8 value

abbrev pub usize_of : {E : Type 0} → Bytes → Res E ℕ
usize_of value = int_of 8 value

-- The decimal digits of `n`; `fuel` above `n` is enough.
pub decimal_within : ℕ → ℕ → Bytes
decimal_within zero n = []
decimal_within (suc fuel) n =
    let front = decimal_within fuel (n / 10) in
    if ltb n 10 then (48 + n) ∷ [] else front ++ ((48 + n % 10) ∷ [])

-- `format!("{}", n)`
unfoldable pub decimal : ℕ → Bytes
unfolding decimal_within
decimal n = decimal_within (suc n) n

-- The digits are read from the left, and a value of `2 ^ 64` or more is refused.
pub parse_digits : ℕ → Bytes → Option ℕ
parse_digits acc [] = some acc
parse_digits acc (c ∷ cs) =
    let next = acc * 10 + (c - 48) in
    let rest = parse_digits next cs in
    if leb 48 c && leb c 57 && ltb next (2 ^ 64) then rest else none

-- `str::parse::<usize>`: at least one digit, behind an optional plus sign.
unfoldable pub parse_usize : Bytes → Option ℕ
unfolding parse_digits
parse_usize [] = none
parse_usize (c ∷ []) = if c == b'+' then none else parse_digits 0 (c ∷ [])
parse_usize (c ∷ d ∷ cs) =
    if c == b'+' then parse_digits 0 (d ∷ cs) else parse_digits 0 (c ∷ d ∷ cs)
