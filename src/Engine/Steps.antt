-- ===== src/Engine/Steps.antt =====
-- The transactions of the engine, by what their steps do.
use dbfs.Prelude.{◌≡◌, false}
use dbfs.Prelude.Res.{ok, err}
use dbfs.Common.Error.{DbfsError}
use dbfs.Kv.{Kv}
use dbfs.Kv.Cursor.{Cursor}
use dbfs.Store.Tx.{Tx}
use dbfs.Store.Atomic.{Serves}
use dbfs.Engine.Index.{TransactionEngine, batch_tx, view_tx}
use dbfs.LogManager.{BlockDevice}

module _ (K : Kv) (C : Cursor K) (D : BlockDevice) (serves : Serves K) {A : Type 0} (m : Tx K.Db A)
    (s : TransactionEngine K D) where
  pub batch_tx-ok :
      {a : A} {d : K.Db} → m s.db ≡ ok (a, d) → batch_tx K C D m s ≡ (ok a, record s { db = d })
  unfolding batch_tx
  batch_tx-ok {a} {d} h = rw (C.begin_batch_law s.db, h, serves.commits d)

  pub batch_tx-err : {e : DbfsError} → m s.db ≡ err e → batch_tx K C D m s ≡ (err e, s)
  unfolding batch_tx
  batch_tx-err h = rw (C.begin_batch_law s.db, h)

  pub view_tx-ok : {a : A} {d : K.Db} → m s.db ≡ ok (a, d) → view_tx K C D m s ≡ (ok a, s)
  unfolding view_tx
  view_tx-ok {a} {d} h = rw (serves.begins false s.db, h)

  pub view_tx-err : {e : DbfsError} → m s.db ≡ err e → view_tx K C D m s ≡ (err e, s)
  unfolding view_tx
  view_tx-err h = rw (serves.begins false s.db, h)
