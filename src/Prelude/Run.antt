-- ===== src/Prelude/Run.antt =====
-- Code that changes a state and may fail with a message. What was changed before a failure stays.
use Prim.Native.String.{String}
use dbfs.Prelude.Res.{Res, ok, err, panic}

abbrev pub Run : Type 0 → Type 0 → Type 0
Run S A = S → Res String A × S

module _ {S : Type 0} where
  abbrev pub pure : {A : Type 0} → A → Run S A
  pure a s = (ok a, s)

  -- A result that does not touch the state, `r?`.
  abbrev pub lift : {A : Type 0} → Res String A → Run S A
  lift r s = (r, s)

  abbrev continue : {A B : Type 0} → Res String A × S → (A → Run S B) → Res String B × S
  continue (ok a, s) f = f a s
  continue (err e, s) f = (err e, s)
  continue (panic, s) f = (panic, s)

  infixl 5 ◌>>=◌ ◌>>◌
  abbrev pub ◌>>=◌ : {A B : Type 0} → Run S A → (A → Run S B) → Run S B
  ◌>>=◌ m f s = continue (m s) f

  abbrev pub ◌>>◌ : {B : Type 0} → Run S (Unit {0}) → Run S B → Run S B
  m >> k = m >>= λ _. k

  -- `self.field = …`
  abbrev pub modify : (S → S) → Run S (Unit {0})
  modify f s = (ok tt, f s)
