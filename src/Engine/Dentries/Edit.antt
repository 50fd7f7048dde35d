-- ===== src/Engine/Dentries/Edit.antt =====
-- The operations on directory entries, by what a lookup finds before and after them.
use dbfs.Prelude.{ℕ, ◌^◌, ◌<◌, ◌≡◌, ◌≢◌, ◌⊎◌, refl, sym, ap, ◌∙◌, false, Bytes, arith}
use dbfs.Prelude.Res.{ok, err}
use dbfs.Common.Error.{not_found}
use dbfs.Kv.{Kv}
use dbfs.Kv.Cursor.{Cursor}
use dbfs.Store.Atomic.{Serves}
use dbfs.Engine.Index.{TransactionEngine, view_tx}
use dbfs.Engine.Dentries.{
  add_dentry, lookup_dentry, delete_dentry, add_dentry_body, delete_dentry_body,
}
use dbfs.Engine.Dentries.Lookup.{
  entry_at, with_dentry, without_dentry, lookup_step, add_step, delete_step_at, entry_at-added,
  entry_at-others, entry_at-deleted, entry_at-kept,
}
use dbfs.Engine.Steps.{batch_tx-ok}
use dbfs.LogManager.{BlockDevice}

module _ (K : Kv) (C : Cursor K) (D : BlockDevice) (dir : ℕ) (name : Bytes)
    (s : TransactionEngine K D) where
  -- No lookup but the one of `name` in `dir` differs between two states.
  abbrev pub OthersSame : TransactionEngine K D → Type 0
  OthersSame s' =
      (dir' : ℕ) (name' : Bytes)
      → dir' < 2 ^ 64
      → (dir ≢ dir') ⊎ (name ≢ name')
      → (lookup_dentry K C D dir' name' s').0 ≡ (lookup_dentry K C D dir' name' s).0

  abbrev pub EntryAdded : ℕ → Type 0
  EntryAdded child =
      let out = add_dentry K C D dir name child s in
      (out.0 ≡ ok tt) × (lookup_dentry K C D dir name out.1 ≡ (ok child, out.1)) × OthersSame out.1

  abbrev pub EntryDeleted : Type 0
  EntryDeleted =
      let out = delete_dentry K C D dir name s in
      (out.0 ≡ ok tt)
      × (lookup_dentry K C D dir name out.1 ≡ (err not_found, out.1))
      × OthersSame out.1

module _ (K : Kv) (C : Cursor K) (D : BlockDevice) (serves : Serves K) where
  pub lookup_dentry-run :
      (dir : ℕ) (name : Bytes) (s : TransactionEngine K D)
      → lookup_dentry K C D dir name s ≡ (entry_at K dir name s.db, s)
  unfolding lookup_dentry view_tx
  lookup_dentry-run dir name s =
      rw (serves.begins false s.db) (ground (arith, lookup_step K C D dir name s.db))

  lookup_dentry-same :
      (dir : ℕ) (name : Bytes) (s s' : TransactionEngine K D)
      → entry_at K dir name s'.db ≡ entry_at K dir name s.db
      → (lookup_dentry K C D dir name s').0 ≡ (lookup_dentry K C D dir name s).0
  lookup_dentry-same dir name s s' e =
      ap (λ out. out.0) (lookup_dentry-run dir name s')
      ∙ e
      ∙ ap (λ out. out.0) (sym (lookup_dentry-run dir name s))

  pub add_dentry-run :
      (dir : ℕ) (name : Bytes) (child : ℕ) (s : TransactionEngine K D)
      → add_dentry K C D dir name child s
        ≡ (ok tt, record s { db = with_dentry K dir name child s.db })
  unfolding add_dentry
  add_dentry-run dir name child s =
      batch_tx-ok K C D serves (add_dentry_body K C D dir name child) s
        (add_step K C D dir name child s.db)

  pub delete_dentry-run :
      (dir : ℕ) (name : Bytes) (s : TransactionEngine K D) {ino : ℕ}
      → entry_at K dir name s.db ≡ ok ino
      → delete_dentry K C D dir name s ≡ (ok tt, record s { db = without_dentry K dir name s.db })
  unfolding delete_dentry
  delete_dentry-run dir name s h =
      batch_tx-ok K C D serves (delete_dentry_body K C D dir name) s
        (delete_step_at K C D dir name s.db h)

  module _ (dir : ℕ) (name : Bytes) (s : TransactionEngine K D) (dir_fits : dir < 2 ^ 64) where
    -- In a database that serves, with inode numbers below `2 ^ 64`: an entry is added also where the
    -- directory has no bucket yet or the name an entry, a lookup of the name then finds the child's
    -- number, and every other lookup finds what it found before.
    pub add_dentry-lookup : (child : ℕ) → child < 2 ^ 64 → EntryAdded K C D dir name s child
    add_dentry-lookup child fits =
        let after : TransactionEngine K D = record s { db = with_dentry K dir name child s.db } in
        rw (add_dentry-run dir name child s) (
          refl,
          lookup_dentry-run dir name after
              ∙ ap (λ v. (v, after)) (entry_at-added K dir name s.db child fits),
          λ dir' name' f apart.
              lookup_dentry-same dir' name' s after
                (entry_at-others K dir name s.db child dir' name' dir_fits f apart),
        )

    -- In a database that serves, with inode numbers below `2 ^ 64`: an entry that a lookup finds is
    -- deleted, a lookup of the name then fails with NotFound, and every other lookup finds what it
    -- found before.
    pub delete_dentry-lookup :
        {ino : ℕ} → lookup_dentry K C D dir name s ≡ (ok ino, s) → EntryDeleted K C D dir name s
    delete_dentry-lookup {ino} found =
        let at : entry_at K dir name s.db ≡ ok ino =
          ap (λ out. out.0) (sym (lookup_dentry-run dir name s) ∙ found) in
        let after : TransactionEngine K D = record s { db = without_dentry K dir name s.db } in
        rw (delete_dentry-run dir name s at) (
          refl,
          lookup_dentry-run dir name after
              ∙ ap (λ v. (v, after)) (entry_at-deleted K dir name s.db),
          λ dir' name' f apart.
              lookup_dentry-same dir' name' s after
                (entry_at-kept K dir dir' name name' s.db dir_fits f apart),
        )
