-- ===== src/Prelude/Act.antt =====
-- Code that changes a state and may fail with an error of its own type. What was changed before a
-- failure stays.
use dbfs.Prelude.Res.{Res, ok, err, panic, map_err}

abbrev pub Act : Type 0 → Type 0 → Type 0 → Type 0
Act E S A = S → Res E A × S

module _ {E S : Type 0} where
  abbrev pub pure : {A : Type 0} → A → Act E S A
  pure a s = (ok a, s)

  -- A result that does not touch the state, `r?`.
  abbrev pub lift : {A : Type 0} → Res E A → Act E S A
  lift r s = (r, s)

  abbrev proceed : {A B : Type 0} → Res E A × S → (A → Act E S B) → Res E B × S
  proceed (ok a, s) f = f a s
  proceed (err e, s) f = (err e, s)
  proceed (panic, s) f = (panic, s)

  infixl 5 ◌>>=◌ ◌>>◌
  abbrev pub ◌>>=◌ : {A B : Type 0} → Act E S A → (A → Act E S B) → Act E S B
  ◌>>=◌ m f s = proceed (m s) f

  abbrev pub ◌>>◌ : {B : Type 0} → Act E S (Unit {0}) → Act E S B → Act E S B
  m >> k = m >>= λ _. k

-- `f().map_err(|_| e)?`
abbrev pub or_err : {E E' S A : Type 0} → E' → Act E S A → Act E' S A
or_err e m s = (map_err (m s).0 e, (m s).1)
