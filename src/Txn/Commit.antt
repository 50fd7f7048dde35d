-- ===== src/Txn/Commit.antt =====
-- The entries of a transaction in the log.
use dbfs.Prelude.{
  ℕ, zero, suc, ◌+◌, ◌^◌, ◌<◌, ◌≡◌, refl, ap, sym, ◌∙◌, some, List, [], ◌∷◌, ◌++◌, append_assoc,
  append-nil, length, take, length-append, arith, ==_refl,
}
use dbfs.Prelude.Res.{ok}
use dbfs.Wal.{WalStorage, WalEntry, Serde, retain_others}
use dbfs.Wal.Recover.{Faithful, AllFit, header, encoded, image}
use dbfs.Wal.Crash.{AtEnd, append-AtEnd, length-header, length-image}
use dbfs.Txn.{TransactionOperation, Bottom, append_all, operations, Log}

abbrev pub Op : Type 0
Op = TransactionOperation

-- The entries of a transaction.
abbrev pub entries_of : ℕ → List Op → List (WalEntry Op)
entries_of id [] = []
entries_of id (op ∷ ops) = record { txn_id = id; operation = op } ∷ entries_of id ops

pub length-entries_of : (id : ℕ) (ops : List Op) → length (entries_of id ops) ≡ length ops
length-entries_of id [] = refl
length-entries_of id (op ∷ ops) = omega (arith, length-entries_of id ops)

module _ (W : WalStorage) (J : Serde Op) (B : Bottom) where
  pub operations-take :
      (id n : ℕ) (ops : List Op) → operations W J B (take n (entries_of id ops)) ≡ take n ops
  operations-take id zero ops = refl
  operations-take id (suc n) [] = refl
  operations-take id (suc n) (op ∷ ops) = ap (λ l. op ∷ l) (operations-take id n ops)

  -- Clearing a transaction of which the log has the only entries leaves no entry.
  pub retain-entries_of :
      (id : ℕ) (ops : List Op) → retain_others Op W J id (entries_of id ops) ≡ []
  unfolding retain_others
  retain-entries_of id [] = refl
  retain-entries_of id (op ∷ ops) = rw (==_refl id, retain-entries_of id ops)

  module _ (T : Faithful W) where
    -- A whole transaction is written behind what is there.
    pub append_all-AtEnd :
        (id : ℕ) (ops : List Op) (log : Log W J B) (d : W.Disk)
        → AtEnd Op W J T log d
        → AllFit Op W J (entries_of id ops)
        → length (T.contents d) + length (image Op W J (entries_of id ops)) < 2 ^ 64
        → (d' : W.Disk) × (append_all W J B id ops log ≡ (
          ok tt,
          record {
            entries = log.entries ++ entries_of id ops;
            storage = some d';
            next_offset = length (T.contents d');
          },
        ))
          × (T.contents d' ≡ T.contents d ++ image Op W J (entries_of id ops))
    unfolding append_all image AllFit
    append_all-AtEnd id [] log d end fit fits = (
      d,
      rw (append-nil log.entries, ← end.storage_at, ← end.offset_at),
      sym (append-nil (T.contents d)),
    )
    append_all-AtEnd id (op ∷ ops) log d end (one, fit) fits =
        let e : WalEntry Op = record { txn_id = id; operation = op } in
        let more : length (image Op W J (entries_of id (op ∷ ops)))
            ≡ 4 + length (encoded Op W J e) + length (image Op W J (entries_of id ops)) =
          length-image Op W J T e (entries_of id ops) in
        let (d1, wrote1, grown1) =
          append-AtEnd Op W J T log d e end one (omega (arith, more, fits)) in
        let log1 : Log W J B = record {
          entries = log.entries ++ (e ∷ []);
          storage = some d1;
          next_offset = length (T.contents d1);
        } in
        let (d2, wrote2, grown2) =
          append_all-AtEnd id ops log1 d1 (record { storage_at = refl; offset_at = refl }) fit
            (omega (
              arith,
              more,
              fits,
              ap length grown1,
              length-append (T.contents d) (header Op W J e ++ encoded Op W J e),
              length-append (header Op W J e) (encoded Op W J e),
              length-header Op W J T e,
            )) in
        (
          d2,
          rw (wrote1, wrote2, append_assoc log.entries (e ∷ []) (entries_of id ops)),
          grown2
              ∙ ap (λ v. v ++ image Op W J (entries_of id ops)) grown1
              ∙ append_assoc (T.contents d) (header Op W J e ++ encoded Op W J e)
                  (image Op W J (entries_of id ops))
              ∙ ap (λ v. T.contents d ++ v)
                  (append_assoc (header Op W J e) (encoded Op W J e)
                    (image Op W J (entries_of id ops))),
        )
