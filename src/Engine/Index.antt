-- ===== src/Engine/Index.antt =====
-- src/tx_engine.rs: the state of the TransactionEngine, its transactions, and the
-- serialisation of the metadata (serde_json) is a parameter.

use dbfs.Prelude.{ℕ, false, ◌++◌, Bytes, codes, length, ◌==◌, if◌then◌else◌, ◌≡◌}
use dbfs.Prelude.Res
use dbfs.Prelude.Res.{Res, ok, err, panic, ok_or}
use dbfs.Prelude.Act.{Act}
use dbfs.Bytes.{from_be, decimal}
use dbfs.Common.Error.{DbfsError, DbfsResult, KvError, not_found, io, other}
use dbfs.Kv.{Kv}
use dbfs.Kv.Cursor.{Cursor}
use dbfs.Store.Tx.{Tx, lift, ◌>>=◌, or_err, get_bucket, get_kv}
use dbfs.Engine.{InodeMetadata}
use dbfs.LogManager.{BlockDevice, LogManager}

-- `serde_json::to_vec`, which serialises every struct of numbers and lists, and
-- `serde_json::from_slice`, which reads back what it wrote.
pub record Serde : Type 0 where
  pub serialize : InodeMetadata → DbfsResult Bytes
  pub deserialize : Bytes → DbfsResult InodeMetadata
  pub serializes : (m : InodeMetadata) → (v : Bytes) × (serialize m ≡ ok v)
  pub read_back : (m : InodeMetadata) {v : Bytes} → serialize m ≡ ok v → deserialize v ≡ ok m

abbrev pub inodes : Bytes
inodes = codes "inodes"

-- `format!("dir_{}", ino)`
unfoldable pub dir_bucket : ℕ → Bytes
dir_bucket ino = codes "dir_" ++ decimal ino

-- `u64::from_be_bytes(bytes.try_into().map_err(|_| DbfsError::Other)?)`
unfoldable pub number_or_other : Bytes → DbfsResult ℕ
number_or_other bytes = if length bytes == 8 then ok (from_be bytes) else err other

module _ (K : Kv) (D : BlockDevice) where
  pub record TransactionEngine : Type 0 where
    pub db : K.Db
    pub log_manager : LogManager D

module _ (K : Kv) (C : Cursor K) (D : BlockDevice) where
  open K use {Db}

  abbrev pub Eng : Type 0 → Type 0
  Eng A = Act DbfsError (TransactionEngine K D) A

  abbrev closed :
      {A : Type 0}
      → TransactionEngine K D
      → A
      → Res KvError Db
      → DbfsResult A × TransactionEngine K D
  closed s a (ok d) = (ok a, record s { db = d })
  closed s a (err e) = (err io, s)
  closed s a panic = (panic, s)

  abbrev settle :
      {A : Type 0}
      → TransactionEngine K D
      → DbfsResult (A × Db)
      → DbfsResult A × TransactionEngine K D
  settle s (ok (a, d)) = closed s a (K.commit d)
  settle s (err e) = (err e, s)
  settle s panic = (panic, s)

  -- `let tx = self.db.begin_batch(); …; tx.commit().map_err(|_| DbfsError::Io)?`
  unfoldable pub batch_tx : {A : Type 0} → Tx Db A → Eng A
  batch_tx m s = settle s (m (C.begin_batch s.db))

  abbrev seen : {A : Type 0} → Res KvError Db → Tx Db A → DbfsResult A
  seen (ok d) m = Res.◌>>=◌ (m d) λ out. ok out.0
  seen (err e) m = err io
  seen panic m = panic

  -- `let tx = self.db.tx(false).map_err(|_| DbfsError::Io)?; …`
  unfoldable pub view_tx : {A : Type 0} → Tx Db A → Eng A
  view_tx m s = (seen (K.begin false s.db) m, s)

module _ (K : Kv) where
  open K use {Db}

  -- `tx.get_bucket("inodes").map_err(|_| DbfsError::NotFound)?`
  abbrev pub inodes_bucket : Tx Db (Unit {0})
  inodes_bucket = or_err not_found (get_bucket K inodes)

  -- `bucket.get(&key).ok_or(DbfsError::NotFound)?`
  abbrev pub value_or_missing : Bytes → Bytes → Tx Db Bytes
  value_or_missing b key = do found ← get_kv K b key; lift (ok_or found not_found)
