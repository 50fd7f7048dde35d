-- ===== src/Wal.antt =====
-- src/wal.rs: the write-ahead log. The storage and serde_json are parameters; a message is a text.
pub mod Recover
pub mod Crash
use dbfs.Prelude.{
  ℕ, zero, suc, ◌+◌, ◌*◌, ◌/◌, ◌%◌, Bool, ◌||◌, true, false, Option, none, some, Bytes, List, [],
  ◌∷◌, ◌++◌, length, ltb, ◌==◌, String, if◌then◌else◌,
}
use dbfs.Prelude.Res.{Res, ok, err, panic}
use dbfs.Prelude.Words.{add64}
use dbfs.Prelude.Run.{Run, lift, modify, ◌>>=◌, ◌>>◌}

-- `WalStorage`: a call leaves the storage in some state also where it fails. A `read` is into
-- a buffer of zeros of the given length, as the code makes them: where it succeeds it gives what the
-- buffer holds then, zeros behind the bytes that were read if it read fewer.
pub record WalStorage : Type 1 where
  pub Disk : Type 0
  pub write : ℕ → Bytes → Disk → Res String (Unit {0}) × Disk
  pub read : ℕ → ℕ → Disk → Option Bytes
  pub truncate : ℕ → Disk → Res String (Unit {0}) × Disk
  pub flush : Disk → Res String (Unit {0}) × Disk

pub record WalEntry (Op : Type 0) : Type 0 where
  pub txn_id : ℕ
  pub operation : Op

-- `serde_json::to_vec` and `serde_json::from_slice` of an entry.
pub record Serde (Op : Type 0) : Type 0 where
  pub to_vec : WalEntry Op → Res String Bytes
  pub from_slice : Bytes → Option (WalEntry Op)

-- `n.to_le_bytes()` of an integer of `w` bytes, and `from_le_bytes`.
unfoldable pub le_bytes : ℕ → ℕ → Bytes
le_bytes zero n = []
le_bytes (suc w) n = (n % 256) ∷ le_bytes w (n / 256)

unfoldable pub from_le : Bytes → ℕ
from_le [] = 0
from_le (b ∷ bs) = b + 256 * from_le bs

module _ (Op : Type 0) (W : WalStorage) (J : Serde Op) where
  open W use {Disk}

  pub record WriteAheadLog : Type 0 where
    pub entries : List (WalEntry Op)
    pub storage : Option Disk
    pub next_offset : ℕ

  -- `WriteAheadLog::new`
  abbrev pub new : WriteAheadLog
  new = record { entries = []; storage = none; next_offset = 0 }

  -- `set_storage`
  unfoldable pub set_storage : Disk → WriteAheadLog → WriteAheadLog
  set_storage d log = record log { storage = some d }

  -- What a call of the storage leaves, with the offset moved on where it succeeded.
  abbrev moved :
      WriteAheadLog → ℕ → Res String (Unit {0}) × Disk → Res String (Unit {0}) × WriteAheadLog
  moved log offset (ok u, d) = (ok tt, record log { storage = some d; next_offset = offset })
  moved log offset (err e, d) = (err e, record log { storage = some d })
  moved log offset (panic, d) = (panic, record log { storage = some d })

  abbrev write_on : Bytes → WriteAheadLog → Option Disk → Res String (Unit {0}) × WriteAheadLog
  write_on bytes log none = (ok tt, log)
  write_on bytes log (some d) =
      moved log (add64 log.next_offset (length bytes)) (W.write log.next_offset bytes d)

  -- `storage.write(self.next_offset, &data)?; self.next_offset += data.len()`, if there is a storage.
  unfoldable pub write_next : Bytes → Run WriteAheadLog (Unit {0})
  write_next bytes log = write_on bytes log log.storage

  unfoldable pub append : ℕ → Op → Run WriteAheadLog (Unit {0})
  append txn_id op = do
    let entry : WalEntry Op = record { txn_id = txn_id; operation = op }
    bytes ← lift (J.to_vec entry)
    write_next (le_bytes 4 (length bytes))
    write_next bytes
    modify (λ log. record log { entries = log.entries ++ (entry ∷ []) })

  abbrev flush_on : WriteAheadLog → Option Disk → Res String (Unit {0}) × WriteAheadLog
  flush_on log none = (ok tt, log)
  flush_on log (some d) = moved log log.next_offset (W.flush d)

  unfoldable pub flush : Run WriteAheadLog (Unit {0})
  flush log = flush_on log log.storage

  abbrev checkpoint_on : WriteAheadLog → Option Disk → Res String (Unit {0}) × WriteAheadLog
  checkpoint_on log none = (ok tt, log)
  checkpoint_on log (some d) = moved log 0 (W.truncate 0 d)

  unfoldable pub checkpoint : Run WriteAheadLog (Unit {0})
  checkpoint log = checkpoint_on log log.storage

  -- `retain` with the entries of the other transactions.
  unfoldable pub retain_others : ℕ → List (WalEntry Op) → List (WalEntry Op)
  retain_others txn_id [] = []
  retain_others txn_id (e ∷ es) =
      let rest = retain_others txn_id es in if e.txn_id == txn_id then rest else e ∷ rest

  abbrev checkpoint_if : List (WalEntry Op) → WriteAheadLog → WriteAheadLog
  checkpoint_if [] log = (checkpoint log).1
  checkpoint_if (e ∷ es) log = log

  -- A checkpoint that fails is only logged.
  unfoldable pub clear_txn : ℕ → WriteAheadLog → WriteAheadLog
  clear_txn txn_id log =
      let left = retain_others txn_id log.entries in
      checkpoint_if left (record log { entries = left })

  -- An entry that cannot be read is skipped.
  abbrev pub with_entry : Option (WalEntry Op) → List (WalEntry Op) × ℕ → List (WalEntry Op) × ℕ
  with_entry none rest = rest
  with_entry (some e) rest = (e ∷ rest.0, rest.1)

  abbrev pub bad_size : ℕ → Bool
  bad_size size = (size == 0) || ltb (1024 * 1024) size

  -- One round of the loop of `recover`: it ends at an offset, or goes on at one, with an entry or
  -- without.
  pub data Round : Type 0 where
    stop : ℕ → Round
    next : ℕ → Option (WalEntry Op) → Round

  abbrev take_entry : ℕ → ℕ → Option Bytes → Round
  take_entry offset size none = stop offset
  take_entry offset size (some bytes) = next (add64 offset size) (J.from_slice bytes)

  abbrev take_size : Disk → ℕ → ℕ → Bool → Round
  take_size d offset size true = stop offset
  take_size d offset size false = take_entry (add64 offset 4) size (W.read (add64 offset 4) size d)

  abbrev take_record : Disk → ℕ → Option Bytes → Round
  take_record d offset none = stop offset
  take_record d offset (some size_buf) =
      take_size d offset (from_le size_buf) (bad_size (from_le size_buf))

  unfoldable pub round : Disk → ℕ → Round
  round d offset = take_record d offset (W.read offset 4 d)

  abbrev go_on : Round → (ℕ → List (WalEntry Op) × ℕ) → List (WalEntry Op) × ℕ
  go_on (stop offset) f = ([], offset)
  go_on (next offset entry) f = with_entry entry (f offset)

  -- The loop of `recover`, at `offset`: the entries, and the offset that it ends at. `fuel` above the
  -- number of records is enough.
  unfoldable pub recover_within : ℕ → Disk → ℕ → List (WalEntry Op) × ℕ
  recover_within zero d offset = ([], offset)
  recover_within (suc fuel) d offset = go_on (round d offset) (λ o. recover_within fuel d o)

  abbrev recover_on : ℕ → Option Disk → List (WalEntry Op) × ℕ
  recover_on fuel none = ([], 0)
  recover_on fuel (some d) = recover_within fuel d 0

  unfoldable pub recover : ℕ → WriteAheadLog → List (WalEntry Op) × WriteAheadLog
  recover fuel log =
      let found = recover_on fuel log.storage in (found.0, record log { next_offset = found.1 })
