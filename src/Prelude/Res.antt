-- ===== src/Prelude/Res.antt =====
-- What a Rust function of the program ends in: a value, an error of its own, or a panic (an
-- `unwrap` of nothing, a failed `assert!`, a slice out of range).
use mathlib.Core.Bool.{Bool, true, false}
use mathlib.Core.Option.{Option, none, some}

pub data Res {ℓ} (E A : Type ℓ) : Type ℓ where
  ok : A → Res E A
  err : E → Res E A
  panic : Res E A

infixl 5 ◌>>=◌ ◌>>◌
abbrev pub ◌>>=◌ {ℓ} : {E A B : Type ℓ} → Res E A → (A → Res E B) → Res E B
ok a >>= f = f a
err e >>= f = err e
panic >>= f = panic

abbrev pub ◌>>◌ : {E B : Type 0} → Res E (Unit {0}) → Res E B → Res E B
m >> k = m >>= λ _. k

module _ {ℓ} {E A : Type ℓ} where
  -- `o.unwrap()`
  abbrev pub unwrap : Option A → Res E A
  unwrap none = panic
  unwrap (some a) = ok a

  -- `o.ok_or(e)?`
  abbrev pub ok_or : Option A → E → Res E A
  ok_or none e = err e
  ok_or (some a) e = ok a

  -- `r.map_err(|_| e)?`
  abbrev pub map_err : {D : Type ℓ} → Res D A → E → Res E A
  map_err (ok a) e = ok a
  map_err (err d) e = err e
  map_err panic e = panic

-- `if !test { return Err(e) }`
abbrev pub guard : {E : Type 0} → Bool → E → Res E (Unit {0})
guard true e = ok tt
guard false e = err e

-- `assert!(test)`
abbrev pub assert : {E : Type 0} → Bool → Res E (Unit {0})
assert true = ok tt
assert false = panic
