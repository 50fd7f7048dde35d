-- ===== src/Vfs/Unlink.antt =====
-- What `unlink` of DbfsInode leaves.
use dbfs.Prelude.{
  ℕ, ◌-◌, ◌^◌, ◌≤◌, ◌<◌, ◌≡◌, ◌≢◌, ◌⊎◌, refl, ap, ◌∙◌, inl, inr, true, false, Bool-cases, Bytes,
  ltb, ◌==◌, if◌then◌else◌, arith,
}
use dbfs.Prelude.Res.{Res, ok, err, map_err}
use dbfs.Kv.{Kv}
use dbfs.Kv.Cursor.{Cursor}
use dbfs.Store.Atomic.{Serves}
use dbfs.Engine.{InodeMetadata}
use dbfs.Engine.Index.{Serde, TransactionEngine, inodes}
use dbfs.Engine.Inodes.{get_metadata}
use dbfs.Engine.Inodes.Meta.{
  meta_at, with_meta, meta_at-has, meta_at-written, meta_at-others, entry_at-with_meta,
  meta_at-without_dentry,
}
use dbfs.Engine.Inodes.Edit.{get_metadata-run, get_metadata-at, update_metadata-run}
use dbfs.Engine.Inodes.Delete.{
  without_inode, delete_inode-run, meta_at-deleted, meta_at-without_inode, entry_at-without_inode,
}
use dbfs.Engine.Dentries.Lookup.{entry_at, without_dentry, entry_at-deleted, entry_at-kept}
use dbfs.Engine.Dentries.Edit.{lookup_dentry-run, delete_dentry-run}
use dbfs.Vfs.{
  VfsError, VfsFileStat, io_error, no_entry, stat_of, fewer_links, drop_inode, lookup, get_attr,
  unlink,
}
use dbfs.Vfs.Names.{lookup-run, lookup-at, lookup-same, get_attr-run, get_attr-same, stat_at}
use dbfs.LogManager.{BlockDevice}

-- The attributes that are left: none with the last link, or one link less.
unfoldable pub stat_left : ℕ → InodeMetadata → Res VfsError VfsFileStat
stat_left ino meta =
    if ltb meta.nlink 2
    then err io_error
    else ok (stat_of ino (record meta { nlink = meta.nlink - 1 }))

module _ (K : Kv) (C : Cursor K) (D : BlockDevice) (S : Serde) (dir : ℕ) (name : Bytes)
    (s : TransactionEngine K D) where
  -- The name is gone, the child has one link less or is gone with its last one, and every other inode
  -- and every other name, but the names in the child itself, are as before.
  abbrev pub Unlinked : ℕ → InodeMetadata → Type 0
  Unlinked child meta =
      let out = unlink K C D S dir name s in
      (out.0 ≡ ok tt)
      × (lookup K C D S dir name out.1 ≡ (err no_entry, out.1))
      × (get_attr K C D S child out.1 ≡ (stat_left child meta, out.1))
      × ((dir' : ℕ) (name' : Bytes)
          → dir' < 2 ^ 64
          → child ≢ dir'
          → (dir ≢ dir') ⊎ (name ≢ name')
          → (lookup K C D S dir' name' out.1).0 ≡ (lookup K C D S dir' name' s).0)
      × ((ino : ℕ)
          → ino < 2 ^ 64
          → child ≢ ino
          → (get_attr K C D S ino out.1).0 ≡ (get_attr K C D S ino s).0)

module _ (K : Kv) (C : Cursor K) (D : BlockDevice) (S : Serde) (serves : Serves K) (dir : ℕ)
    (name : Bytes) (s : TransactionEngine K D) (child : ℕ) (meta : InodeMetadata) where
  abbrev unnamed : K.Db
  unnamed = without_dentry K dir name s.db

  unlink-run :
      entry_at K dir name s.db ≡ ok child
      → meta_at K S child s.db ≡ ok meta
      → unlink K C D S dir name s
        ≡ drop_inode K C D S child (fewer_links meta) (record s { db = unnamed })
  unfolding unlink
  unlink-run at known =
      let at' : meta_at K S child unnamed ≡ ok meta =
        meta_at-without_dentry K S child dir name s.db ∙ known in
      rw (
        lookup_dentry-run K C D serves dir name s,
        at,
        delete_dentry-run K C D serves dir name s at,
        get_metadata-run K C D S serves child (record s { db = unnamed }),
        at',
      )

  -- The two ways that the child goes on.
  last_link :
      meta_at K S child s.db ≡ ok meta
      → meta.nlink < 2
      → drop_inode K C D S child (fewer_links meta) (record s { db = unnamed })
        ≡ (ok tt, record s { db = without_inode K S child unnamed })
  unfolding drop_inode fewer_links
  last_link known few =
      let none_left : ((if ltb 0 meta.nlink then meta.nlink - 1 else meta.nlink) == 0) ≡ true =
        ground arith in
      rw (
        none_left,
        delete_inode-run K S C D serves child (record s { db = unnamed })
            (meta_at-without_dentry K S child dir name s.db ∙ known),
      )

  abbrev less : InodeMetadata
  less = record meta { nlink = meta.nlink - 1 }

  link_left :
      meta_at K S child s.db ≡ ok meta
      → 2 ≤ meta.nlink
      → meta.ino ≡ child
      → drop_inode K C D S child (fewer_links meta) (record s { db = unnamed })
        ≡ (ok tt, record s { db = with_meta K S child less unnamed })
  unfolding drop_inode fewer_links
  link_left known many own =
      let there : K.has inodes unnamed ≡ true =
        meta_at-has K S child unnamed (meta_at-without_dentry K S child dir name s.db ∙ known) in
      let some_left : ltb 0 meta.nlink ≡ true = ground arith in
      let not_last : (meta.nlink - 1 == 0) ≡ false = ground arith in
      rw (
        some_left,
        not_last,
        update_metadata-run K C D S serves less (record s { db = unnamed }) there,
        own,
      )

  -- The state behind the unlinking.
  unlinked_db : K.Db
  unlinked_db =
      if ltb meta.nlink 2 then without_inode K S child unnamed else with_meta K S child less unnamed

  unlink-unlinked_db :
      entry_at K dir name s.db ≡ ok child
      → meta_at K S child s.db ≡ ok meta
      → meta.ino ≡ child
      → unlink K C D S dir name s ≡ (ok tt, record s { db = unlinked_db })
  unfolding unlinked_db
  unlink-unlinked_db at known own = elim (Bool-cases (ltb meta.nlink 2)) [
    | inl few ↦ rw few (unlink-run at known ∙ last_link known (ground arith))
    | inr many ↦ rw many (unlink-run at known ∙ link_left known (ground arith) own)
  ]

  module _ (known : meta_at K S child s.db ≡ ok meta) where
    has_inodes : K.has inodes unnamed ≡ true
    has_inodes =
        meta_at-has K S child unnamed (meta_at-without_dentry K S child dir name s.db ∙ known)

    child_left : stat_at K C D S child (record s { db = unlinked_db }) ≡ stat_left child meta
    unfolding unlinked_db stat_left
    child_left = elim (Bool-cases (ltb meta.nlink 2)) [
      | inl few ↦ rw (few, meta_at-deleted K S child unnamed)
      | inr many ↦ rw (many, meta_at-written K S child less unnamed has_inodes)
    ]

    metas_left :
        (ino : ℕ)
        → child < 2 ^ 64
        → ino < 2 ^ 64
        → child ≢ ino
        → meta_at K S ino unlinked_db ≡ meta_at K S ino s.db
    unfolding unlinked_db
    metas_left ino f f' ne = elim (Bool-cases (ltb meta.nlink 2)) [
      | inl few ↦ rw few (
          meta_at-without_inode K S child unnamed ino f f' ne
          ∙ meta_at-without_dentry K S ino dir name s.db)
      | inr many ↦ rw many (
          meta_at-others K S child less unnamed ino f f' ne
          ∙ meta_at-without_dentry K S ino dir name s.db)
    ]

    entries_left :
        (dir' : ℕ) (name' : Bytes)
        → child < 2 ^ 64
        → dir' < 2 ^ 64
        → child ≢ dir'
        → entry_at K dir' name' unlinked_db ≡ entry_at K dir' name' unnamed
    unfolding unlinked_db
    entries_left dir' name' f f' ne = elim (Bool-cases (ltb meta.nlink 2)) [
      | inl few ↦ rw few (entry_at-without_inode K S child unnamed dir' name' f f' ne)
      | inr many ↦ rw many (entry_at-with_meta K S child less unnamed dir' name')
    ]

  -- In a database that serves, with inode numbers below `2 ^ 64`: an entry that a lookup finds, of a
  -- child other than the directory whose metadata is read and has its number, is unlinked. The name is
  -- gone, the child has one link less or is gone with its last one, and every other inode, and every
  -- other name outside the child, is as before.
  pub unlink-Unlinked :
      lookup K C D S dir name s ≡ (ok child, s)
      → get_metadata K C D S child s ≡ (ok meta, s)
      → meta.ino ≡ child
      → dir < 2 ^ 64
      → child < 2 ^ 64
      → child ≢ dir
      → Unlinked K C D S dir name s child meta
  unlink-Unlinked found read own dir_fits fits ne =
      let at = lookup-at K C D S serves dir name s found in
      let known = get_metadata-at K C D S serves child s (ap (λ out. out.0) read) in
      let s' : TransactionEngine K D = record s { db = unlinked_db } in
      rw (unlink-unlinked_db at known own) (
        refl,
        lookup-run K C D S serves dir name s'
            ∙ ap (λ r. (map_err r no_entry, s'))
                (entries_left known dir name fits dir_fits ne ∙ entry_at-deleted K dir name s.db),
        get_attr-run K C D S serves child s' ∙ ap (λ r. (r, s')) (child_left known),
        (λ dir' name' f other apart. lookup-same K C D S serves s s' dir' name' (
            entries_left known dir' name' fits f other
            ∙ entry_at-kept K dir dir' name name' s.db dir_fits f apart)),
        (λ ino f other. get_attr-same K C D S serves s s' ino (metas_left known ino fits f other)),
      )
