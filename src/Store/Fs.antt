-- ===== src/Store/Fs.antt =====
-- Operations of several transactions, put together: an operation that fails or panics ends the
-- whole, and what was committed before stays.
use dbfs.Prelude.Res.{ok, err, panic}
use dbfs.Prelude.Words.{add64}
use dbfs.Common.Error.{DbfsError, DbfsResult}
use dbfs.Store.Tx.{Fs}
use dbfs.Prelude.{ℕ}

abbrev relabel : {A : Type 0} → DbfsError → DbfsResult A → DbfsResult A
relabel e (ok a) = ok a
relabel e (err d) = err e
relabel e panic = panic

module _ {D : Type 0} where
  abbrev pub pure : {A : Type 0} → A → Fs D A
  pure a s = (ok a, s)

  abbrev pub lift : {A : Type 0} → DbfsResult A → Fs D A
  lift r s = (r, s)

  abbrev proceed : {A B : Type 0} → DbfsResult A → (A → Fs D B) → Fs D B
  proceed (ok a) f s = f a s
  proceed (err e) f s = (err e, s)
  proceed panic f s = (panic, s)

  infixl 5 ◌>>=◌ ◌>>◌
  abbrev pub ◌>>=◌ : {A B : Type 0} → Fs D A → (A → Fs D B) → Fs D B
  ◌>>=◌ m f s = proceed (m s).0 f (m s).1

  abbrev pub ◌>>◌ : {B : Type 0} → Fs D (Unit {0}) → Fs D B → Fs D B
  m >> k = m >>= λ _. k

  -- `f().map_err(|_| e)?`
  abbrev pub or_err : {A : Type 0} → DbfsError → Fs D A → Fs D A
  or_err e m s = (relabel e (m s).0, (m s).1)

  -- `DBFS_INODE_NUMBER.fetch_add(1, …)`
  unfoldable pub fetch_inode_number : Fs D ℕ
  fetch_inode_number s = (ok s.next_inode, record s { next_inode = add64 s.next_inode 1 })
