-- ===== src/Vfs/Names.antt =====
-- What the methods of DbfsInode that change names leave: which names a lookup finds, and with which
-- attributes.
use dbfs.Prelude.{ℕ, ◌^◌, ◌<◌, ◌≡◌, ◌≢◌, ◌⊎◌, sym, ap, ◌∙◌, Bytes, arith}
use dbfs.Prelude.Res.{Res, ok, err, panic, map_err}
use dbfs.Common.Error.{DbfsResult}
use dbfs.Kv.{Kv}
use dbfs.Kv.Cursor.{Cursor}
use dbfs.Store.Atomic.{Serves}
use dbfs.Engine.{InodeMetadata}
use dbfs.Engine.Index.{Serde, TransactionEngine}
use dbfs.Engine.Inodes.Meta.{meta_at}
use dbfs.Engine.Inodes.Edit.{get_metadata-run}
use dbfs.Engine.Dentries.Lookup.{entry_at}
use dbfs.Engine.Dentries.Edit.{lookup_dentry-run}
use dbfs.Vfs.{VfsError, VfsFileStat, io_error, no_entry, stat_of, lookup, get_attr}
use dbfs.LogManager.{BlockDevice}

module _ (K : Kv) (C : Cursor K) (D : BlockDevice) (S : Serde) where
  -- What a lookup and a reading of the attributes reply.
  abbrev pub found_at : ℕ → Bytes → TransactionEngine K D → Res VfsError ℕ
  found_at dir name s = map_err (entry_at K dir name s.db) no_entry

  abbrev stat_found : ℕ → DbfsResult InodeMetadata → Res VfsError VfsFileStat
  stat_found ino (ok meta) = ok (stat_of ino meta)
  stat_found ino (err e) = err io_error
  stat_found ino panic = panic

  abbrev pub stat_at : ℕ → TransactionEngine K D → Res VfsError VfsFileStat
  stat_at ino s = stat_found ino (meta_at K S ino s.db)

  pub stat_at-ok :
      (ino : ℕ) (s : TransactionEngine K D) {meta : InodeMetadata}
      → meta_at K S ino s.db ≡ ok meta
      → stat_at ino s ≡ ok (stat_of ino meta)
  stat_at-ok ino s h = ap (stat_found ino) h

  module _ (serves : Serves K) where
    pub lookup-run :
        (dir : ℕ) (name : Bytes) (s : TransactionEngine K D)
        → lookup K C D S dir name s ≡ (found_at dir name s, s)
    unfolding lookup
    lookup-run dir name s = rw (lookup_dentry-run K C D serves dir name s)

    -- What a lookup finds stands in the contents.
    pub lookup-at :
        (dir : ℕ) (name : Bytes) (s : TransactionEngine K D) {ino : ℕ}
        → lookup K C D S dir name s ≡ (ok ino, s)
        → entry_at K dir name s.db ≡ ok ino
    lookup-at dir name s {ino} found =
        of_found (entry_at K dir name s.db)
          (ap (λ out. out.0) (sym (lookup-run dir name s) ∙ found))
      where
        of_found : (r : DbfsResult ℕ) → map_err r no_entry ≡ ok ino → r ≡ ok ino
        of_found (ok n) h = cc
        of_found (err e) h = cc
        of_found panic h = cc

    pub get_attr-run :
        (ino : ℕ) (s : TransactionEngine K D) → get_attr K C D S ino s ≡ (stat_at ino s, s)
    unfolding get_attr
    get_attr-run ino s = rw (get_metadata-run K C D S serves ino s) (ground arith)

  -- Between two states no lookup but that of one name differs, and no inode's attributes.
  abbrev pub OtherNamesSame : ℕ → Bytes → TransactionEngine K D → TransactionEngine K D → Type 0
  OtherNamesSame dir name s s' =
      (dir' : ℕ) (name' : Bytes)
      → dir' < 2 ^ 64
      → (dir ≢ dir') ⊎ (name ≢ name')
      → (lookup K C D S dir' name' s').0 ≡ (lookup K C D S dir' name' s).0

  abbrev pub AttrsSame : TransactionEngine K D → TransactionEngine K D → Type 0
  AttrsSame s s' = (ino : ℕ) → (get_attr K C D S ino s').0 ≡ (get_attr K C D S ino s).0

module _ (K : Kv) (C : Cursor K) (D : BlockDevice) (S : Serde) (serves : Serves K)
    (s s' : TransactionEngine K D) where
  pub lookup-same :
      (dir : ℕ) (name : Bytes)
      → entry_at K dir name s'.db ≡ entry_at K dir name s.db
      → (lookup K C D S dir name s').0 ≡ (lookup K C D S dir name s).0
  lookup-same dir name e =
      ap (λ out. out.0) (lookup-run K C D S serves dir name s')
      ∙ ap (λ r. map_err r no_entry) e
      ∙ ap (λ out. out.0) (sym (lookup-run K C D S serves dir name s))

  pub get_attr-same :
      (ino : ℕ)
      → meta_at K S ino s'.db ≡ meta_at K S ino s.db
      → (get_attr K C D S ino s').0 ≡ (get_attr K C D S ino s).0
  get_attr-same ino e =
      ap (λ out. out.0) (get_attr-run K C D S serves ino s')
      ∙ ap (stat_found K C D S ino) e
      ∙ ap (λ out. out.0) (sym (get_attr-run K C D S serves ino s))
