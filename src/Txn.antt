-- ===== src/Txn.antt =====
-- src/operation.rs and src/transaction.rs: operations that are recorded, logged and then applied. The
-- file system below is a parameter: its functions `crate::common::dbfs_write` and so on are not in
-- the repository.
pub mod Commit
pub mod Crash
use dbfs.Prelude.{ℕ, Bytes, Option, none, List, [], ◌∷◌, ◌++◌, String, bit_or}
use dbfs.Prelude.Res.{Res}
use dbfs.Prelude.Words.{add64}
use dbfs.Prelude.Run.{Run, modify, pure, ◌>>◌}
use dbfs.Common.Time.{DbfsTimeSpec, epoch}
use dbfs.Common.Permission.{from_bits_truncate, s_ifdir}
use dbfs.Wal
use dbfs.Wal.{WalStorage, WalEntry, Serde, WriteAheadLog}

pub data TransactionOperation : Type 0 where
  write : (ino offset : ℕ) (bytes : Bytes) → TransactionOperation
  create :
      (parent_ino : ℕ) (name : Bytes) (uid gid perm : ℕ) (dev : Option ℕ) → TransactionOperation
  delete : (parent_ino : ℕ) (name : Bytes) → TransactionOperation
  rename :
      (old_parent_ino : ℕ) (old_name : Bytes) (new_parent_ino : ℕ) (new_name : Bytes)
      → TransactionOperation
  mkdir : (parent_ino : ℕ) (name : Bytes) (uid gid perm : ℕ) → TransactionOperation
  truncate : (ino length : ℕ) → TransactionOperation

-- The functions of the file system below, each with its error already made a message.
pub record Bottom : Type 1 where
  pub Files : Type 0
  pub dbfs_write : ℕ → Bytes → ℕ → Run Files (Unit {0})
  pub dbfs_create :
      ℕ → Bytes → ℕ → ℕ → DbfsTimeSpec → ℕ → Option Bytes → Option ℕ → Run Files (Unit {0})
  pub dbfs_unlink : ℕ → ℕ → ℕ → Bytes → Option ℕ → DbfsTimeSpec → Run Files (Unit {0})
  pub dbfs_rename : ℕ → Bytes → ℕ → Bytes → ℕ → DbfsTimeSpec → Run Files (Unit {0})
  pub dbfs_truncate : ℕ → ℕ → DbfsTimeSpec → Run Files (Unit {0})

pub record Transaction : Type 0 where
  pub id : ℕ
  pub ops : List TransactionOperation

-- `Transaction::record`
unfoldable pub record_op : TransactionOperation → Transaction → Transaction
record_op op txn = record txn { ops = txn.ops ++ (op ∷ []) }

module _ (B : Bottom) where
  open B use {Files}

  unfoldable pub apply : TransactionOperation → Run Files (Unit {0})
  apply (write ino offset bytes) = B.dbfs_write ino bytes offset
  apply (create parent_ino name uid gid perm dev) =
      B.dbfs_create parent_ino name uid gid epoch (from_bits_truncate perm) none dev
  apply (delete parent_ino name) = B.dbfs_unlink 0 0 parent_ino name none epoch
  apply (rename old_parent_ino old_name new_parent_ino new_name) =
      B.dbfs_rename old_parent_ino old_name new_parent_ino new_name 0 epoch
  apply (mkdir parent_ino name uid gid perm) =
      B.dbfs_create parent_ino name uid gid epoch (from_bits_truncate (bit_or perm s_ifdir)) none
        none
  apply (truncate ino length) = B.dbfs_truncate ino length epoch

  -- `for op in ops { op.apply()?; }`
  unfoldable pub apply_all : List TransactionOperation → Run Files (Unit {0})
  unfolding apply
  apply_all [] = pure tt
  apply_all (op ∷ ops) = do apply op; apply_all ops

module _ (W : WalStorage) (J : Serde TransactionOperation) (B : Bottom) where
  open B use {Files}

  abbrev pub Log : Type 0
  Log = WriteAheadLog TransactionOperation W J

  -- `TransactionManager`; its locks are taken one after the other by each call, which is one step.
  pub record TransactionManager : Type 0 where
    pub wal : Log
    pub next_txn_id : ℕ
    pub files : Files

  abbrev pub Step : Type 0
  Step = Run TransactionManager (Unit {0})

  abbrev with_wal :
      TransactionManager → Res String (Unit {0}) × Log → Res String (Unit {0}) × TransactionManager
  with_wal m out = (out.0, record m { wal = out.1 })

  abbrev with_files :
      TransactionManager
      → Res String (Unit {0}) × Files
      → Res String (Unit {0}) × TransactionManager
  with_files m out = (out.0, record m { files = out.1 })

  abbrev pub on_wal : Run Log (Unit {0}) → Step
  on_wal step m = with_wal m (step m.wal)

  abbrev pub on_files : Run Files (Unit {0}) → Step
  on_files step m = with_files m (step m.files)

  unfoldable pub begin_transaction : TransactionManager → Transaction × TransactionManager
  begin_transaction m =
      (record { id = m.next_txn_id; ops = [] }, record m { next_txn_id = add64 m.next_txn_id 1 })

  -- `for op in &txn.ops { wal.append(txn.id, op.clone())?; }`
  unfoldable pub append_all : ℕ → List TransactionOperation → Run Log (Unit {0})
  append_all id [] = pure tt
  append_all id (op ∷ ops) = do Wal.append TransactionOperation W J id op; append_all id ops

  unfoldable pub commit_into_wal_only : Transaction → Step
  commit_into_wal_only txn = do
    on_wal (append_all txn.id txn.ops)
    on_wal (Wal.flush TransactionOperation W J)

  unfoldable pub commit : Transaction → Step
  commit txn = do
    on_wal (append_all txn.id txn.ops)
    on_wal (Wal.flush TransactionOperation W J)
    on_files (apply_all B txn.ops)
    modify (λ m. record m { wal = Wal.clear_txn TransactionOperation W J txn.id m.wal })

  abbrev pub operations : List (WalEntry TransactionOperation) → List TransactionOperation
  operations [] = []
  operations (e ∷ es) = e.operation ∷ operations es

  -- The log is read back and its operations are applied; the log itself is left as it is.
  unfoldable pub replay : ℕ → Step
  replay fuel m =
      let found = Wal.recover TransactionOperation W J fuel m.wal in
      on_files (apply_all B (operations found.0)) (record m { wal = found.1 })

  unfoldable pub rollback : Transaction → TransactionManager → TransactionManager
  rollback txn m = m
