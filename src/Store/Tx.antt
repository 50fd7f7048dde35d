-- ===== src/Store/Tx.antt =====
-- The two monads of the operations. `Tx`: the steps inside one transaction, on the contents that it
-- sees. `Fs`: the operations, on the committed contents and the inode counter; what an operation did
-- to them before it failed stays.
use dbfs.Prelude.{ℕ, Bool, true, false, Option, Bytes, if◌then◌else◌}
use dbfs.Prelude.Res.{Res, ok, err, panic, map_err}
use dbfs.Prelude.Res
use dbfs.Bytes.{be_bytes, int_of, parse_usize}
use dbfs.Common.Error.{DbfsError, DbfsResult, unwrap_ok, try}
use dbfs.Common.Time.{DbfsTimeSpec, time_bytes, time_of}
use dbfs.Kv.{Kv}

abbrev pub Tx : Type 0 → Type 0 → Type 0
Tx D A = D → DbfsResult (A × D)

module _ {D : Type 0} where
  abbrev pub pure : {A : Type 0} → A → Tx D A
  pure a d = ok (a, d)

  -- A result that does not touch the database, `r?`.
  abbrev pub lift : {A : Type 0} → DbfsResult A → Tx D A
  lift (ok a) d = ok (a, d)
  lift (err e) d = err e
  lift panic d = panic

  abbrev run_on : {A B : Type 0} → DbfsResult (A × D) → (A → Tx D B) → DbfsResult (B × D)
  run_on (ok (a, d)) f = f a d
  run_on (err e) f = err e
  run_on panic f = panic

  infixl 5 ◌>>=◌ ◌>>◌
  abbrev pub ◌>>=◌ : {A B : Type 0} → Tx D A → (A → Tx D B) → Tx D B
  ◌>>=◌ m f d = run_on (m d) f

  abbrev pub ◌>>◌ : {B : Type 0} → Tx D (Unit {0}) → Tx D B → Tx D B
  m >> k = m >>= λ _. k

  -- A step of jammdb that returns the new contents.
  abbrev pub after : DbfsResult D → DbfsResult (Unit {0} × D)
  after (ok d) = ok (tt, d)
  after (err e) = err e
  after panic = panic

  -- `f(tx).map_err(|_| e)?`
  abbrev pub or_err : {A : Type 0} → DbfsError → Tx D A → Tx D A
  or_err e m d = map_err (m d) e

  -- `f(tx).unwrap()`
  abbrev pub or_panic : {A : Type 0} → Tx D A → Tx D A
  or_panic m d = unwrap_ok (m d)

  -- `if test { m }`
  abbrev pub when : Bool → Tx D (Unit {0}) → Tx D (Unit {0})
  when true m = m
  when false m = pure tt

-- The steps inside a transaction. A bucket is given by its name.
module _ (K : Kv) where
  open K use {Db}

  -- `tx.get_bucket(name)?`
  unfoldable pub get_bucket : Bytes → Tx Db (Unit {0})
  get_bucket b d = elim (try (K.get_bucket b d)) [
    | ok u ↦ ok (tt, d)
    | err e ↦ err e
    | panic ↦ panic
  ]

  abbrev is_missing : {A : Type 0} → Db → DbfsResult A → DbfsResult (Bool × Db)
  is_missing d (ok a) = ok (false, d)
  is_missing d (err e) = ok (true, d)
  is_missing d panic = panic

  -- `tx.get_bucket(name).is_err()`
  unfoldable pub no_bucket : Bytes → Tx Db Bool
  no_bucket b d = is_missing d (try (K.get_bucket b d))

  -- `tx.create_bucket(name)?`
  unfoldable pub create_bucket : Bytes → Tx Db (Unit {0})
  create_bucket b d = after (try (K.create_bucket b d))

  -- `tx.delete_bucket(name)?`
  unfoldable pub delete_bucket : Bytes → Tx Db (Unit {0})
  delete_bucket b d = after (try (K.delete_bucket b d))

  -- `tx.get_or_create_bucket(name)?`
  unfoldable pub get_or_create_bucket : Bytes → Tx Db (Unit {0})
  get_or_create_bucket b d = let made = create_bucket b d in if K.has b d then ok (tt, d) else made

  -- `bucket.put(key, value)?`
  unfoldable pub put : Bytes → Bytes → Bytes → Tx Db (Unit {0})
  put b k v d = after (try (K.put b k v d))

  -- `bucket.delete(key)?`
  unfoldable pub delete : Bytes → Bytes → Tx Db (Unit {0})
  delete b k d = after (try (K.delete b k d))

  -- `bucket.get_kv(key)`
  unfoldable pub get_kv : Bytes → Bytes → Tx Db (Option Bytes)
  get_kv b k d = ok (K.get_kv b k d, d)

  -- `bucket.get_kv(key).unwrap().value()`
  unfoldable pub value : Bytes → Bytes → Tx Db Bytes
  unfolding get_kv
  value b k = do found ← get_kv b k; lift (Res.unwrap found)

  -- `u16!`, `u32!`, `u64!`, `usize!` of such a value: an integer of `w` bytes.
  unfoldable pub value_int : ℕ → Bytes → Bytes → Tx Db ℕ
  unfolding value
  value_int w b k = do v ← value b k; lift (int_of w v)

  -- `dbfs_time_spec!` of such a value.
  unfoldable pub value_time : Bytes → Bytes → Tx Db DbfsTimeSpec
  unfolding value
  value_time b k = do v ← value b k; lift (time_of v)

  -- `bucket.put(key, n.to_be_bytes())?` of an integer of `w` bytes.
  abbrev pub put_int : ℕ → Bytes → Bytes → ℕ → Tx Db (Unit {0})
  put_int w b k n = put b k (be_bytes w n)

  -- `bucket.put(key, time.to_be_bytes())?`
  abbrev pub put_time : Bytes → Bytes → DbfsTimeSpec → Tx Db (Unit {0})
  put_time b k t = put b k (time_bytes t)

-- `core::str::from_utf8(value).unwrap().parse::<usize>().unwrap()`: bytes that are no text have no
-- number either, so both panics are one.
unfoldable pub entry_number : Bytes → DbfsResult ℕ
entry_number v = Res.unwrap (parse_usize v)

pub record State (D : Type 0) : Type 0 where
  pub db : D
  pub next_inode : ℕ

abbrev pub Fs : Type 0 → Type 0 → Type 0
Fs D A = State D → DbfsResult A × State D

module _ (K : Kv) where
  open K use {Db}

  abbrev pub committed : {A : Type 0} → State Db → A → DbfsResult Db → DbfsResult A × State Db
  committed s a (ok d) = (ok a, record s { db = d })
  committed s a (err e) = (err e, s)
  committed s a panic = (panic, s)

  abbrev pub commit_to : {A : Type 0} → State Db → DbfsResult (A × Db) → DbfsResult A × State Db
  commit_to s (ok (a, d)) = committed s a (try (K.commit d))
  commit_to s (err e) = (err e, s)
  commit_to s panic = (panic, s)

  abbrev drop_tx : {A : Type 0} → State Db → DbfsResult (A × Db) → DbfsResult A × State Db
  drop_tx s (ok (a, d)) = (ok a, s)
  drop_tx s (err e) = (err e, s)
  drop_tx s panic = (panic, s)

  abbrev pub begin_with : Bool → {A : Type 0} → Tx Db A → State Db → DbfsResult (A × Db)
  begin_with w m s = Res.◌>>=◌ (try (K.begin w s.db)) m

  -- `let tx = db.tx(true)?; …; tx.commit()?`: on a failure the transaction is dropped, and its writes
  -- with it.
  unfoldable pub write_tx : {A : Type 0} → Tx Db A → Fs Db A
  write_tx m s = commit_to s (begin_with true m s)

  -- `let tx = db.tx(writable)?; …` with no commit.
  unfoldable pub dropped_tx : {A : Type 0} → Bool → Tx Db A → Fs Db A
  dropped_tx w m s = drop_tx s (begin_with w m s)

  -- `let tx = db.tx(false)?; …`
  abbrev pub read_tx : {A : Type 0} → Tx Db A → Fs Db A
  read_tx m = dropped_tx false m

  -- `let tx = db.tx(writable).unwrap(); …`: a transaction that does not begin is a panic.
  abbrev pub begin_or_panic : Bool → {A : Type 0} → Tx Db A → State Db → DbfsResult (A × Db)
  begin_or_panic w m s = Res.◌>>=◌ (unwrap_ok (K.begin w s.db)) m

  unfoldable pub write_tx_unwrap : {A : Type 0} → Tx Db A → Fs Db A
  write_tx_unwrap m s = commit_to s (begin_or_panic true m s)

  unfoldable pub dropped_tx_unwrap : {A : Type 0} → Bool → Tx Db A → Fs Db A
  dropped_tx_unwrap w m s = drop_tx s (begin_or_panic w m s)
