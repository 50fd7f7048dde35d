-- ===== src/Engine/Inodes/Allocate.antt =====
-- The number that `allocate_inode` gives to a new inode.
use dbfs.Prelude.{
  ℕ, ◌+◌, ◌^◌, ◌≤◌, ◌<◌, ◌≡◌, refl, ap, ◌∙◌, sym, true, false, none, some, List, [], ◌∷◌, Bytes,
  same, same→eq, same_refl, Bool-cases, inl, inr, ltb, if◌then◌else◌, arith,
}
use dbfs.Prelude.Res.{ok, err}
use dbfs.Prelude.Words.{add64}
use dbfs.Bytes.{be_bytes}
use dbfs.Common.Error.{DbfsResult, not_found}
use dbfs.Kv.{Kv}
use dbfs.Kv.Cursor.{Cursor, find_pair}
use dbfs.Store.Atomic.{Serves}
use dbfs.Store.Laws.{get_bucket_at}
use dbfs.Engine.Index.{Serde, TransactionEngine, inodes, number_or_other}
use dbfs.Engine.Dentries.Lookup.{number_or_other-be_bytes}
use dbfs.Engine.Inodes.{
  greatest_inode, allocate_inode, allocate_inode_body, new_metadata, get_metadata,
}
use dbfs.Engine.Inodes.Meta.{meta_at, with_meta, put_meta_step}
use dbfs.Engine.Inodes.Edit.{MetaWritten, get_metadata-run, written}
use dbfs.Engine.Steps.{batch_tx-ok}
use dbfs.LogManager.{BlockDevice}

-- Every key is the number of an inode, and none is the last number.
unfoldable AllNumbered : List (Bytes × Bytes) → Type 0
AllNumbered [] = Unit {0}
AllNumbered ((key, v) ∷ ps) =
    ((n : ℕ) × (number_or_other key ≡ ok n) × (n + 1 < 2 ^ 64)) × AllNumbered ps

-- What the loop over the keys finds: a number from which on none is in use.
abbrev Above : ℕ → List (Bytes × Bytes) → Type 0
Above least ps =
    (m : ℕ) × (greatest_inode least ps ≡ ok m)
    × (least ≤ m)
    × (m + 1 < 2 ^ 64)
    × ((n : ℕ) → m < n → n < 2 ^ 64 → find_pair (be_bytes 8 n) ps ≡ none)

key-apart :
    (key : Bytes) (n m : ℕ)
    → number_or_other key ≡ ok n
    → n < m
    → m < 2 ^ 64
    → same key (be_bytes 8 m) ≡ false
key-apart key n m e less fits = elim (Bool-cases (same key (be_bytes 8 m))) [
  | inr h ↦ h
  | inl h ↦ absurd (
      omega (
        arith,
        number_eq (
            sym e
            ∙ ap number_or_other (same→eq key (be_bytes 8 m) h)
            ∙ number_or_other-be_bytes m fits),
      ))
]
  where
    number_eq : ◌≡◌ {A = DbfsResult ℕ} (ok n) (ok m) → n ≡ m
    number_eq h = cc

greatest_inode-Above :
    (least : ℕ) (ps : List (Bytes × Bytes)) → AllNumbered ps → least + 1 < 2 ^ 64 → Above least ps
unfolding AllNumbered greatest_inode find_pair
greatest_inode-Above least [] all fits = (least, refl, omega arith, fits, λ n h f. refl)
greatest_inode-Above least ((key, v) ∷ ps) ((n, e, small), all) fits =
    let next : ℕ = if ltb least n then n else least in
    let at_least : (least ≤ next) × (n ≤ next) × (next + 1 < 2 ^ 64) = ground arith in
    let (m, run, le, above, fresh) = greatest_inode-Above next ps all at_least.2 in
    (
      m,
      rw e run,
      omega arith,
      above,
      λ n' h f. rw (key-apart key n n' e (omega arith) f) (fresh n' h f),
    )

-- Every pair of a list is found by its key.
AllFound : List (Bytes × Bytes) → List (Bytes × Bytes) → Type 0
AllFound all [] = Unit {0}
AllFound all ((k, v) ∷ ps) = ((v' : Bytes) × (find_pair k all ≡ some v')) × AllFound all ps

AllFound-more :
    (k v : Bytes) (all ps : List (Bytes × Bytes)) → AllFound all ps → AllFound ((k, v) ∷ all) ps
unfolding AllFound find_pair
AllFound-more k v all [] h = tt
AllFound-more k v all ((k', v') ∷ ps) ((v1, e), h) = (
  elim (Bool-cases (same k k')) [ inl hit ↦ (v, rw hit) | inr miss ↦ (v1, rw miss e) ],
  AllFound-more k v all ps h,
)

AllFound-refl : (ps : List (Bytes × Bytes)) → AllFound ps ps
unfolding AllFound find_pair
AllFound-refl [] = tt
AllFound-refl ((k, v) ∷ ps) = ((v, rw (same_refl k)), AllFound-more k v ps ps (AllFound-refl ps))

module _ (K : Kv) where
  -- Every key in the bucket of the inodes is the number of an inode, and none is the last number.
  abbrev pub IsNumbered : K.Db → Type 0
  IsNumbered d =
      (key v : Bytes)
      → K.get_kv inodes key d ≡ some v
      → (n : ℕ) × (number_or_other key ≡ ok n) × (n + 1 < 2 ^ 64)

  numbered :
      (C : Cursor K) (d : K.Db) (ps : List (Bytes × Bytes))
      → IsNumbered d
      → AllFound (C.pairs inodes d) ps
      → AllNumbered ps
  unfolding AllFound AllNumbered
  numbered C d [] h found = tt
  numbered C d ((k, v) ∷ ps) h ((v', e), found) =
      (h k v' (sym (C.pairs_law inodes k d) ∙ e), numbered C d ps h found)

module _ (K : Kv) (C : Cursor K) (D : BlockDevice) (S : Serde) where
  -- The reply is a number that had no metadata, and has that of a new inode now.
  abbrev pub Allocated : ℕ → TransactionEngine K D → Type 0
  Allocated mode s =
      let out = allocate_inode K C D S mode s in
      (ino : ℕ) × (out.0 ≡ ok ino)
      × (1 < ino)
      × (ino < 2 ^ 64)
      × (get_metadata K C D S ino s ≡ (err not_found, s))
      × MetaWritten K C D S ino (new_metadata K C D S ino mode) s out.1

  module _ (serves : Serves K) (mode : ℕ) (s : TransactionEngine K D) where
    pub allocate_inode-run :
        (m : ℕ)
        → K.has inodes s.db ≡ true
        → greatest_inode 1 (C.pairs inodes s.db) ≡ ok m
        → m + 1 < 2 ^ 64
        → allocate_inode K C D S mode s ≡ (
          ok (m + 1),
          record s { db = with_meta K S (m + 1) (new_metadata K C D S (m + 1) mode) s.db },
        )
    unfolding allocate_inode allocate_inode_body
    allocate_inode-run m there run fits =
        let e : add64 m 1 ≡ m + 1 = omega arith in
        batch_tx-ok K C D serves _ s (
          rw (
            get_bucket_at K inodes s.db there,
            run,
            e,
            put_meta_step K S C D (m + 1) (new_metadata K C D S (m + 1) mode) s.db there,
          ))

    -- In a database that serves and has a bucket of inodes, where every key is an inode number below
    -- the last: the new inode has a number above 1 that had no metadata, a read of it then gives the
    -- new metadata, and every other inode, every directory entry and the log are as before.
    pub allocate_inode-Allocated : K.has inodes s.db ≡ true → IsNumbered K s.db → Allocated mode s
    allocate_inode-Allocated there numbers =
        let all =
          numbered K C s.db (C.pairs inodes s.db) numbers (AllFound-refl (C.pairs inodes s.db)) in
        let (m, run, le, above, fresh) =
          greatest_inode-Above 1 (C.pairs inodes s.db) all (omega arith) in
        let missing : K.get_kv inodes (be_bytes 8 (m + 1)) s.db ≡ none =
          sym (C.pairs_law inodes (be_bytes 8 (m + 1)) s.db) ∙ fresh (m + 1) (omega arith) above in
        let at : meta_at K S (m + 1) s.db ≡ err not_found = rw (there, missing) in
        (
          m + 1,
          ap (λ out. out.0) (allocate_inode-run m there run above),
          omega arith,
          above,
          get_metadata-run K C D S serves (m + 1) s ∙ ap (λ v. (v, s)) at,
          rw (allocate_inode-run m there run above)
              (written K C D S serves (m + 1) (new_metadata K C D S (m + 1) mode) s above there),
        )
