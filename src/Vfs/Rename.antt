-- ===== src/Vfs/Rename.antt =====
-- What `rename_to` of DbfsInode leaves.
use dbfs.Prelude.{ℕ, ◌^◌, ◌<◌, ◌≡◌, ◌≢◌, ◌⊎◌, inl, inr, refl, sym, ap, ◌∙◌, some, Bytes}
use dbfs.Prelude.Res.{ok, err, map_err}
use dbfs.Kv.{Kv}
use dbfs.Kv.Cursor.{Cursor}
use dbfs.Store.Atomic.{Serves}
use dbfs.Engine.Index.{Serde, TransactionEngine}
use dbfs.Engine.Inodes.Meta.{meta_at-with_dentry, meta_at-without_dentry}
use dbfs.Engine.Dentries.Lookup.{
  entry_at, with_dentry, without_dentry, entry_at-added, entry_at-others, entry_at-deleted,
  entry_at-kept,
}
use dbfs.Engine.Dentries.Edit.{lookup_dentry-run, add_dentry-run, delete_dentry-run}
use dbfs.Vfs.{no_entry, lookup, rename_to}
use dbfs.Vfs.Names.{AttrsSame, lookup-at, lookup-run, lookup-same, get_attr-same}
use dbfs.LogManager.{BlockDevice}

module _ (K : Kv) (C : Cursor K) (D : BlockDevice) (S : Serde) (dir : ℕ) (name : Bytes) (dir' : ℕ)
    (name' : Bytes) (s : TransactionEngine K D) where
  -- The new name is the inode's, the old name is no one's, and nothing else changed.
  abbrev pub Renamed : ℕ → Type 0
  Renamed ino =
      let out = rename_to K C D S dir name (some dir') name' s in
      (out.0 ≡ ok tt)
      × (lookup K C D S dir' name' out.1 ≡ (ok ino, out.1))
      × (lookup K C D S dir name out.1 ≡ (err no_entry, out.1))
      × ((d : ℕ) (n : Bytes)
          → d < 2 ^ 64
          → (dir ≢ d) ⊎ (name ≢ n)
          → (dir' ≢ d) ⊎ (name' ≢ n)
          → (lookup K C D S d n out.1).0 ≡ (lookup K C D S d n s).0)
      × AttrsSame K C D S s out.1

module _ (K : Kv) (C : Cursor K) (D : BlockDevice) (S : Serde) (dir : ℕ) (name : Bytes)
    (s : TransactionEngine K D) where
  -- A success that leaves no entry.
  abbrev pub SelfRenamed : Type 0
  SelfRenamed =
      let out = rename_to K C D S dir name (some dir) name s in
      (out.0 ≡ ok tt)
      × ((lookup K C D S dir name out.1).0 ≡ err no_entry)
      × AttrsSame K C D S s out.1

module _ (K : Kv) (C : Cursor K) (D : BlockDevice) (S : Serde) (serves : Serves K) (dir : ℕ)
    (name : Bytes) (s : TransactionEngine K D) (fits : dir < 2 ^ 64) where
  -- The contents behind a rename.
  moved : ℕ → Bytes → ℕ → TransactionEngine K D
  moved dir' name' ino = record s {
    db = without_dentry K dir name (with_dentry K dir' name' ino s.db);
  }

  rename_to-run :
      (dir' : ℕ) (name' : Bytes) (ino : ℕ) {found : ℕ}
      → entry_at K dir name s.db ≡ ok ino
      → entry_at K dir name (with_dentry K dir' name' ino s.db) ≡ ok found
      → rename_to K C D S dir name (some dir') name' s ≡ (ok tt, moved dir' name' ino)
  unfolding rename_to moved
  rename_to-run dir' name' ino at still = rw (
    lookup_dentry-run K C D serves dir name s,
    at,
    add_dentry-run K C D serves dir' name' ino s,
    delete_dentry-run K C D serves dir name (record s { db = with_dentry K dir' name' ino s.db })
        still,
  )

  -- In a database that serves, with inode numbers below `2 ^ 64`: an entry that a lookup finds is
  -- renamed to a name that differs in the directory or the text, also where the new name had an entry
  -- before; a lookup of the new name finds the inode, one of the old name nothing, and no other name
  -- and no inode changed.
  pub rename_to-Renamed :
      (dir' : ℕ) (name' : Bytes) {ino : ℕ}
      → dir' < 2 ^ 64
      → ino < 2 ^ 64
      → (dir ≢ dir') ⊎ (name ≢ name')
      → lookup K C D S dir name s ≡ (ok ino, s)
      → Renamed K C D S dir name dir' name' s ino
  unfolding moved
  rename_to-Renamed dir' name' {ino} fits' small apart found =
      let at = lookup-at K C D S serves dir name s found in
      let apart' = swap apart in
      let s' : TransactionEngine K D = moved dir' name' ino in
      let d1 = with_dentry K dir' name' ino s.db in
      let still : entry_at K dir name d1 ≡ ok ino =
        entry_at-others K dir' name' s.db ino dir name fits' fits apart' ∙ at in
      rw (rename_to-run dir' name' ino at still) (
        refl,
        lookup-run K C D S serves dir' name' s'
            ∙ ap (λ r. (map_err r no_entry, s'))
                (entry_at-kept K dir dir' name name' d1 fits fits' apart
                  ∙ entry_at-added K dir' name' s.db ino small),
        lookup-run K C D S serves dir name s'
            ∙ ap (λ r. (map_err r no_entry, s')) (entry_at-deleted K dir name d1),
        (λ d n f a b. lookup-same K C D S serves s s' d n (
            entry_at-kept K dir d name n d1 fits f a
            ∙ entry_at-others K dir' name' s.db ino d n fits' f b)),
        (λ ino'. get_attr-same K C D S serves s s' ino' (
            meta_at-without_dentry K S ino' dir name d1
            ∙ meta_at-with_dentry K S ino' dir' name' ino s.db)),
      )
    where
      swap : (dir ≢ dir') ⊎ (name ≢ name') → (dir' ≢ dir) ⊎ (name' ≢ name)
      swap (inl ne) = inl (λ e. ne (sym e))
      swap (inr ne) = inr (λ e. ne (sym e))

  -- In a database that serves, with inode numbers below `2 ^ 64`: renaming an entry that a lookup finds
  -- to its own name succeeds and takes the entry away, while every inode stays as it was.
  pub rename_to_self :
      {ino : ℕ}
      → ino < 2 ^ 64
      → lookup K C D S dir name s ≡ (ok ino, s)
      → SelfRenamed K C D S dir name s
  unfolding moved
  rename_to_self {ino} small found =
      let d1 = with_dentry K dir name ino s.db in
      let s' : TransactionEngine K D = moved dir name ino in
      rw
        (rename_to-run dir name ino (lookup-at K C D S serves dir name s found)
          (entry_at-added K dir name s.db ino small))
        (
          refl,
          ap (λ out. out.0) (lookup-run K C D S serves dir name s')
              ∙ ap (λ r. map_err r no_entry) (entry_at-deleted K dir name d1),
          (λ ino'. get_attr-same K C D S serves s s' ino' (
              meta_at-without_dentry K S ino' dir name d1
              ∙ meta_at-with_dentry K S ino' dir name ino s.db)),
        )
