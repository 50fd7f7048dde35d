-- ===== src/Txn/Crash.antt =====
-- A transaction that is committed, and one whose log is replayed after a crash.
use dbfs.Prelude.{
  String, ℕ, ◌^◌, ◌<◌, ◌≤◌, ◌≡◌, ◌≢◌, refl, ap, sym, ◌∙◌, some, [], ◌++◌, length, take, take-all,
  arith,
}
use dbfs.Prelude.Res.{Res, ok}
use dbfs.Wal.{WalStorage, Serde, new, set_storage, flush, recover, clear_txn, checkpoint}
use dbfs.Wal.Recover.{Faithful, AllFit, image, whole}
use dbfs.Wal.Crash.{recover_within-front, whole-all}
use dbfs.Txn.{
  Bottom, Transaction, TransactionManager, apply_all, append_all, commit_into_wal_only, commit,
  replay, operations, Log,
}
use dbfs.Txn.Commit.{
  Op, entries_of, length-entries_of, operations-take, retain-entries_of, append_all-AtEnd,
}

module _ (W : WalStorage) (J : Serde Op) (B : Bottom) where
  -- A manager with a new log on the given storage.
  abbrev pub manager : ℕ → W.Disk → B.Files → TransactionManager W J B
  manager id d files = record {
    wal = set_storage Op W J d (new Op W J);
    next_txn_id = id;
    files = files;
  }

  module _ (txn : Transaction) (m : TransactionManager W J B) where
    abbrev pub LogsFirst : Type 0
    LogsFirst =
        ((commit_into_wal_only W J B txn m).1.files ≡ m.files)
        × ((commit_into_wal_only W J B txn m).0 ≢ ok tt
            → commit W J B txn m ≡ commit_into_wal_only W J B txn m)

    -- Writing a transaction to the log does not touch the files, and where it fails, the commit fails
    -- as it does and leaves the same state.
    logs_first : LogsFirst
    unfolding commit commit_into_wal_only
    logs_first = ground arith

  module _ (T : Faithful W) (d : W.Disk) (files : B.Files) (id : ℕ) (txn : Transaction) where
    -- The log is whole before the files are touched, and stays whole where an operation fails.
    abbrev pub LoggedWhole : Type 0
    LoggedWhole =
        let log_only = commit_into_wal_only W J B txn (manager id d files) in
        let out = commit W J B txn (manager id d files) in
        let applied = apply_all B txn.ops files in
        (log_only.0 ≡ ok tt)
        × (log_only.1.files ≡ files)
        × (log_only.1.wal.entries ≡ entries_of txn.id txn.ops)
        × ((d' : W.Disk) × (log_only.1.wal.storage ≡ some d')
            × (T.contents d' ≡ image Op W J (entries_of txn.id txn.ops)))
        × (out.0 ≡ applied.0)
        × (out.1.files ≡ applied.1)
        × (applied.0 ≢ ok tt → out.1.wal ≡ log_only.1.wal)
        × ((m : TransactionManager W J B) → LogsFirst txn m)

  module _ (T : Faithful W) (d : W.Disk) (files : B.Files) (id : ℕ) (txn : Transaction) where
    -- What the log of a transaction is good for: the storage that it leaves, and every front of it.
    abbrev pub Recoverable : Type 0
    Recoverable =
        (d' : W.Disk) × ((commit_into_wal_only W J B txn (manager id d files)).0 ≡ ok tt)
        × ((commit_into_wal_only W J B txn (manager id d files)).1.wal.storage ≡ some d')
        × ((n fuel : ℕ) (kept : W.Disk) (id' : ℕ)
            → T.contents kept ≡ take n (T.contents d')
            → length txn.ops < fuel
            → ((replay W J B fuel (manager id' kept files)).0
                ≡ (apply_all B (take (whole Op W J n (entries_of txn.id txn.ops)) txn.ops) files).0)
              × ((replay W J B fuel (manager id' kept files)).1.files
                  ≡ (apply_all B (take (whole Op W J n (entries_of txn.id txn.ops)) txn.ops)
                      files).1))
        × ((n : ℕ)
            → length (T.contents d') ≤ n
            → take (whole Op W J n (entries_of txn.id txn.ops)) txn.ops ≡ txn.ops)

  module _ (T : Faithful W) (files : B.Files) (txn : Transaction) where
    -- What a commit leaves where all goes well.
    abbrev pub CommitApplied : Res String (Unit {0}) × TransactionManager W J B → Type 0
    CommitApplied out =
        (out.0 ≡ ok tt)
        × (out.1.files ≡ (apply_all B txn.ops files).1)
        × (out.1.wal.entries ≡ [])
        × (out.1.wal.next_offset ≡ 0)
        × ((d' : W.Disk) × (out.1.wal.storage ≡ some d') × (T.contents d' ≡ []))

  module _ (T : Faithful W) (d : W.Disk) (files : B.Files) (id : ℕ) (txn : Transaction)
      (empty : T.contents d ≡ []) (fit : AllFit Op W J (entries_of txn.id txn.ops))
      (fits : length (image Op W J (entries_of txn.id txn.ops)) < 2 ^ 64) where
    checkpoint-at :
        (offset : ℕ) (d0 d2 : W.Disk)
        → W.truncate 0 d0 ≡ (ok tt, d2)
        → (checkpoint Op W J (record { entries = []; storage = some d0; next_offset = offset })).1
          ≡ record { entries = []; storage = some d2; next_offset = 0 }
    unfolding checkpoint
    checkpoint-at offset d0 d2 cut = rw cut

    -- Clearing the only transaction of a log empties it and its storage.
    cleared :
        (offset : ℕ) (d0 d2 : W.Disk)
        → W.truncate 0 d0 ≡ (ok tt, d2)
        → clear_txn Op W J txn.id (record {
          entries = entries_of txn.id txn.ops;
          storage = some d0;
          next_offset = offset;
        })
          ≡ record { entries = []; storage = some d2; next_offset = 0 }
    unfolding clear_txn
    cleared offset d0 d2 cut =
        rw (retain-entries_of W J B txn.id txn.ops) (checkpoint-at offset d0 d2 cut)

    logged :
        (d' : W.Disk) × (append_all W J B txn.id txn.ops (set_storage Op W J d (new Op W J)) ≡ (
          ok tt,
          record {
            entries = entries_of txn.id txn.ops;
            storage = some d';
            next_offset = length (T.contents d');
          },
        ))
        × (T.contents d' ≡ image Op W J (entries_of txn.id txn.ops))
    unfolding set_storage
    logged =
        let log : Log W J B = set_storage Op W J d (new Op W J) in
        let (d', wrote, grown) =
          append_all-AtEnd W J B T txn.id txn.ops log d
            (record { storage_at = refl; offset_at = ap length (sym empty) }) fit
            (omega (arith, fits, ap length empty)) in
        (d', wrote, grown ∙ ap (λ v. v ++ image Op W J (entries_of txn.id txn.ops)) empty)

    -- On a storage that holds what is written to it and starts empty, a transaction whose records fit
    -- is first written to the log as a whole, with the files untouched. A commit then leaves the
    -- files and the result of applying its operations in order, and where that fails, the log still
    -- holds the whole transaction. On any storage the logging does not touch the files, and where
    -- it fails, the commit fails as it does and leaves the same state.
    pub commit-logs_first : LoggedWhole T d files id txn
    unfolding commit commit_into_wal_only flush
    commit-logs_first =
        let (d', wrote, grown) = logged in
        rw (wrote, T.flush_law d')
          (
            refl,
            refl,
            refl,
            (d', refl, grown),
            ground arith,
            ground arith,
            ground arith,
            (λ m. logs_first txn m),
          )

    replayed :
        (n fuel : ℕ) (kept : W.Disk)
        → T.contents kept ≡ take n (image Op W J (entries_of txn.id txn.ops))
        → length txn.ops < fuel
        → operations W J B (recover Op W J fuel (set_storage Op W J kept (new Op W J))).0
          ≡ take (whole Op W J n (entries_of txn.id txn.ops)) txn.ops
    unfolding recover set_storage
    replayed n fuel kept at enough =
        ap (operations W J B) (
          recover_within-front Op W J T (entries_of txn.id txn.ops) [] n fuel kept fit at
            (omega (arith, fits)) (omega (arith, length-entries_of txn.id txn.ops)))
        ∙ operations-take W J B txn.id (whole Op W J n (entries_of txn.id txn.ops)) txn.ops

    -- On a storage that holds what is written to it and starts empty, a transaction whose records
    -- fit is logged with success. After a crash that keeps only the first `n` bytes, a new manager
    -- that replays the log on enough fuel applies, in order, those operations whose records are
    -- whole, and no others; those are all of them where `n` covers the log.
    pub replay-crash : Recoverable T d files id txn
    unfolding commit_into_wal_only replay flush
    replay-crash =
        let (d', wrote, grown) = logged in
        (
          d',
          rw (wrote, T.flush_law d'),
          rw (wrote, T.flush_law d'),
          λ n fuel kept id' at enough.
              let es : operations W J B
                    (recover Op W J fuel (set_storage Op W J kept (new Op W J))).0
                  ≡ take (whole Op W J n (entries_of txn.id txn.ops)) txn.ops =
                replayed n fuel kept (at ∙ ap (take n) grown) enough in
              (rw es, rw es),
          λ n cover. take-all (whole Op W J n (entries_of txn.id txn.ops)) txn.ops (
              omega (
                arith,
                length-entries_of txn.id txn.ops,
                whole-all Op W J T n (entries_of txn.id txn.ops)
                    (omega (arith, cover, ap length grown)),
              )),
        )

    -- On a storage that holds what is written to it and starts empty, a commit of a transaction
    -- whose records fit and whose operations all apply succeeds: they were applied in order, and
    -- the log is empty again, in memory and in its storage.
    pub commit-applies :
        (apply_all B txn.ops files).0 ≡ ok tt
        → CommitApplied T files txn (commit W J B txn (manager id d files))
    commit-applies applied =
        let (d', wrote, grown) = logged in
        let (d2, cut, none_left) = T.truncate_law d' in
        let log : Log W J B = record {
          entries = entries_of txn.id txn.ops;
          storage = some d';
          next_offset = length (T.contents d');
        } in
        let run : commit W J B txn (manager id d files) ≡ (
          ok tt,
          record {
            wal = clear_txn Op W J txn.id log;
            next_txn_id = id;
            files = (apply_all B txn.ops files).1;
          },
        ) =
          unfold commit in unfold flush in rw (wrote, T.flush_law d', applied) in
        let end : clear_txn Op W J txn.id log
            ≡ record { entries = []; storage = some d2; next_offset = 0 } =
          cleared (length (T.contents d')) d' d2 cut in
        rw (run, end) (refl, refl, refl, refl, (d2, refl, none_left))
