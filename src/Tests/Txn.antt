-- ===== src/Tests/Txn.antt =====
-- Transactions over a storage in memory.
use dbfs.Prelude.{
  ℕ, ◌<◌, ◌^◌, ◌+◌, ◌≡◌, refl, ap, arith, some, none, Option, List, [], ◌∷◌, ◌++◌, Bytes, take,
  drop, length, leb, take-all, String, if◌then◌else◌,
}
use dbfs.Prelude.Res.{Res, ok, panic}
use dbfs.Wal.{WalStorage, WalEntry, Serde, le_bytes, from_le}
use dbfs.Wal.Recover.{Faithful, AllFit, image}
use dbfs.Txn.{truncate, Bottom, Transaction, apply_all, commit}
use dbfs.Txn.Commit.{Op, entries_of}
use dbfs.Txn.Crash.{
  LoggedWhole, Recoverable, CommitApplied, manager, commit-logs_first, replay-crash, commit-applies,
}

abbrev plain : WalStorage
plain = record {
  Disk = Bytes;
  write = λ offset bytes d. (ok tt, take offset d ++ bytes);
  read = λ offset n d. if leb (offset + n) (length d) then some (take n (drop offset d)) else none;
  truncate = λ n d. (ok tt, take n d);
  flush = λ d. (ok tt, d);
}

plain-Faithful : Faithful plain
plain-Faithful = record {
  contents = λ d. d;
  write_law = λ offset bytes d e.
      (take offset d ++ bytes, refl, ap (λ v. v ++ bytes) (take-all offset d (omega (arith, e))));
  truncate_law = λ d. ([], refl, refl);
  flush_law = λ d. refl;
  read_law = λ offset n d. refl;
}

plain_empty : plain-Faithful.contents [] ≡ []
unfolding plain-Faithful
plain_empty = refl

-- A serde that knows one operation.
abbrev spell : WalEntry Op → Res String Bytes
spell e = elim e.operation [ truncate ino len ↦ ok (e.txn_id ∷ ino ∷ len ∷ []) | _ ↦ panic ]

abbrev unspell : Bytes → Option (WalEntry Op)
unspell (id ∷ ino ∷ len ∷ []) = some (record { txn_id = id; operation = truncate ino len })
unspell _ = none

abbrev toy : Serde Op
toy = record { to_vec = spell; from_slice = unspell }

-- Files that are the numbers of the inodes that were cut.
abbrev cut_files : Bottom
cut_files = record {
  Files = List ℕ;
  dbfs_write = λ i b o f. (ok tt, f);
  dbfs_create = λ p n u g t m x d f. (ok tt, f);
  dbfs_unlink = λ u g p n i t f. (ok tt, f);
  dbfs_rename = λ p n q m x t f. (ok tt, f);
  dbfs_truncate = λ ino len t f. (ok tt, ino ∷ f);
}

abbrev two_cuts : Transaction
two_cuts = record { id = 1; ops = truncate 5 9 ∷ truncate 6 0 ∷ [] }

two_cuts-AllFit : AllFit Op plain toy (entries_of 1 two_cuts.ops)
unfolding AllFit
two_cuts-AllFit = (
  record { writes = refl; reads = refl; pos = omega arith; small = omega arith },
  (record { writes = refl; reads = refl; pos = omega arith; small = omega arith }, tt),
)

cuts_fit : length (image Op plain toy (entries_of 1 two_cuts.ops)) < 2 ^ 64
unfolding image dbfs.Wal.le_bytes
cuts_fit = omega arith

commit-logs_first_example : LoggedWhole plain toy cut_files plain-Faithful [] [] 2 two_cuts
commit-logs_first_example =
    commit-logs_first plain toy cut_files plain-Faithful [] [] 2 two_cuts plain_empty
      two_cuts-AllFit cuts_fit

replay-crash_example : Recoverable plain toy cut_files plain-Faithful [] [] 2 two_cuts
replay-crash_example =
    replay-crash plain toy cut_files plain-Faithful [] [] 2 two_cuts plain_empty two_cuts-AllFit
      cuts_fit

cuts_apply : (apply_all cut_files two_cuts.ops []).0 ≡ ok tt
unfolding apply_all
cuts_apply = refl

commit-applies_example :
    CommitApplied plain toy cut_files plain-Faithful [] two_cuts
      (commit plain toy cut_files two_cuts (manager plain toy cut_files 2 [] []))
commit-applies_example =
    commit-applies plain toy cut_files plain-Faithful [] [] 2 two_cuts plain_empty two_cuts-AllFit
      cuts_fit cuts_apply
