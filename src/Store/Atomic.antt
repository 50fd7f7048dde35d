-- ===== src/Store/Atomic.antt =====
-- A transaction that fails changes nothing, and one that commits leaves what it saw.
use dbfs.Prelude.{Bool, true, ◌≡◌, ◌≢◌, refl, sym, ap, arith, inl, inr, ◌⊎◌}
use dbfs.Prelude.Res
use dbfs.Prelude.Res.{Res, ok, err, panic}
use dbfs.Common.Error.{KvError, DbfsError, DbfsResult, try}
use dbfs.Kv.{Kv}
use dbfs.Store.Tx.{
  Tx, State, write_tx, committed, commit_to, dropped_tx, write_tx_unwrap, dropped_tx_unwrap,
}

-- The database answers: every transaction begins, and every commit succeeds.
pub record Serves (K : Kv) : Type 0 where
  pub begins : (w : Bool) (d : K.Db) → K.begin w d ≡ ok d
  pub commits : (d : K.Db) → K.commit d ≡ ok d

module _ (K : Kv) {A : Type 0} (m : Tx K.Db A) (s : State K.Db) where
  -- The run returns a value and leaves the contents of the steps, all of them, or it returns no value
  -- and leaves the state as it was.
  abbrev pub AllOrNothing : DbfsResult A × State K.Db → Type 0
  AllOrNothing out =
      ((a : A) × (d : K.Db) × (m s.db ≡ ok (a, d)) × (out ≡ (ok a, record s { db = d })))
      ⊎ (((a : A) → out.0 ≢ ok a) × (out.1 ≡ s))

  all_commit :
      (a : A) (d : K.Db) (r : Res KvError K.Db)
      → m s.db ≡ ok (a, d)
      → K.commit d ≡ r
      → AllOrNothing (committed K s a (try r))
  all_commit a d (ok d') run e =
      inl (a, d, run, ap (λ v. (ok a, record s { db = v })) (K.commit_law d e))
  all_commit a d (err x) run e = inr ((λ a' h. cc), refl)
  all_commit a d panic run e = inr ((λ a' h. cc), refl)

  all_run : (r : DbfsResult (A × K.Db)) → m s.db ≡ r → AllOrNothing (commit_to K s r)
  all_run (ok (a, d)) run = all_commit a d (K.commit d) run refl
  all_run (err x) run = inr ((λ a' h. cc), refl)
  all_run panic run = inr ((λ a' h. cc), refl)

  all_begin :
      (r : Res KvError K.Db)
      → K.begin true s.db ≡ r
      → AllOrNothing (commit_to K s (Res.◌>>=◌ (try r) m))
  all_begin (ok d) e = all_run (m d) (ap m (sym (K.begin_law true s.db e)))
  all_begin (err x) e = inr ((λ a' h. cc), refl)
  all_begin panic e = inr ((λ a' h. cc), refl)

  -- A writing transaction is all or nothing, also where its beginning or its commit fails.
  pub write_tx-AllOrNothing : AllOrNothing (write_tx K m s)
  unfolding write_tx
  write_tx-AllOrNothing = all_begin (K.begin true s.db) refl

  -- A transaction that is not committed changes nothing, whatever it returns.
  pub dropped_tx-same : (w : Bool) → (dropped_tx K w m s).1 ≡ s
  unfolding dropped_tx
  dropped_tx-same w = ground arith

  pub write_tx-ok :
      Serves K
      → {a : A} {d : K.Db} → m s.db ≡ ok (a, d)
      → write_tx K m s ≡ (ok a, record s { db = d })
  unfolding write_tx
  write_tx-ok serves {a} {d} h = rw (serves.begins true s.db, h, serves.commits d)

  pub dropped_tx-ok :
      Serves K → (w : Bool) {a : A} {d : K.Db} → m s.db ≡ ok (a, d) → dropped_tx K w m s ≡ (ok a, s)
  unfolding dropped_tx
  dropped_tx-ok serves w {a} {d} h = rw (serves.begins w s.db, h)

  pub dropped_tx-err :
      Serves K → (w : Bool) {e : DbfsError} → m s.db ≡ err e → dropped_tx K w m s ≡ (err e, s)
  unfolding dropped_tx
  dropped_tx-err serves w h = rw (serves.begins w s.db, h)

  pub write_tx-err : Serves K → {e : DbfsError} → m s.db ≡ err e → write_tx K m s ≡ (err e, s)
  unfolding write_tx
  write_tx-err serves h = rw (serves.begins true s.db, h)

  -- The same for a transaction whose beginning is unwrapped.
  pub write_tx_unwrap-ok :
      Serves K
      → {a : A} {d : K.Db} → m s.db ≡ ok (a, d)
      → write_tx_unwrap K m s ≡ (ok a, record s { db = d })
  unfolding write_tx_unwrap
  write_tx_unwrap-ok serves {a} {d} h = rw (serves.begins true s.db, h, serves.commits d)

  pub write_tx_unwrap-err :
      Serves K → {e : DbfsError} → m s.db ≡ err e → write_tx_unwrap K m s ≡ (err e, s)
  unfolding write_tx_unwrap
  write_tx_unwrap-err serves h = rw (serves.begins true s.db, h)

  pub dropped_tx_unwrap-ok :
      Serves K
      → (w : Bool) {a : A} {d : K.Db} → m s.db ≡ ok (a, d)
      → dropped_tx_unwrap K w m s ≡ (ok a, s)
  unfolding dropped_tx_unwrap
  dropped_tx_unwrap-ok serves w {a} {d} h = rw (serves.begins w s.db, h)

  pub dropped_tx_unwrap-err :
      Serves K
      → (w : Bool) {e : DbfsError} → m s.db ≡ err e
      → dropped_tx_unwrap K w m s ≡ (err e, s)
  unfolding dropped_tx_unwrap
  dropped_tx_unwrap-err serves w h = rw (serves.begins w s.db, h)

  pub dropped_tx_unwrap-same : (w : Bool) → (dropped_tx_unwrap K w m s).1 ≡ s
  unfolding dropped_tx_unwrap
  dropped_tx_unwrap-same w = ground arith
