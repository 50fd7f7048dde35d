-- ===== src/Vfs/Create.antt =====
-- What `create` and `mkdir` of DbfsInode leave.
use dbfs.Prelude.{ℕ, ◌^◌, ◌<◌, ◌≡◌, ◌≢◌, refl, sym, ap, ◌∙◌, true, Bytes, bit_or}
use dbfs.Prelude.Res.{Res, ok, err, map_err}
use dbfs.Prelude.Words.{pos}
use dbfs.Common.Error.{not_found}
use dbfs.Kv.{Kv}
use dbfs.Kv.Cursor.{Cursor}
use dbfs.Store.Atomic.{Serves}
use dbfs.Engine.Index.{Serde, TransactionEngine, inodes}
use dbfs.Engine.Inodes.{allocate_inode, new_metadata, get_metadata}
use dbfs.Engine.Inodes.Allocate.{IsNumbered, allocate_inode-Allocated}
use dbfs.Engine.Inodes.Meta.{meta_at, meta_at-with_dentry}
use dbfs.Engine.Inodes.Edit.{get_metadata-at}
use dbfs.Engine.Dentries.Lookup.{with_dentry, entry_at-added, entry_at-others}
use dbfs.Engine.Dentries.Edit.{add_dentry-run, lookup_dentry-run}
use dbfs.Vfs.{VfsError, VfsFileStat, no_entry, stat_of, add_inode, create, mkdir, lookup, get_attr}
use dbfs.Vfs.Names.{
  OtherNamesSame, lookup-run, get_attr-run, stat_at-ok, lookup-same, get_attr-same,
}
use dbfs.LogManager.{BlockDevice}

-- What a new inode shows: nothing in it, one link, all times 0, and root as its owner.
abbrev pub new_stat : ℕ → ℕ → VfsFileStat
new_stat ino mode = record {
  st_size = 0;
  st_ino = ino;
  st_mode = mode;
  st_nlink = 1;
  st_uid = 0;
  st_gid = 0;
  st_atime = pos 0;
  st_mtime = pos 0;
  st_ctime = pos 0;
}

module _ (K : Kv) (C : Cursor K) (D : BlockDevice) (S : Serde) (dir : ℕ) (name : Bytes)
    (s : TransactionEngine K D) where
  -- The new inode has a number that had no metadata, is found under the name and has the attributes
  -- of an empty file of the mode; every other name and every other inode is as before.
  abbrev pub Created : ℕ → Res VfsError ℕ × TransactionEngine K D → Type 0
  Created mode out =
      (ino : ℕ) × (out.0 ≡ ok ino)
      × (get_metadata K C D S ino s ≡ (err not_found, s))
      × (lookup K C D S dir name out.1 ≡ (ok ino, out.1))
      × (get_attr K C D S ino out.1 ≡ (ok (new_stat ino mode), out.1))
      × OtherNamesSame K C D S dir name s out.1
      × ((ino' : ℕ)
          → ino' < 2 ^ 64
          → ino ≢ ino'
          → (get_attr K C D S ino' out.1).0 ≡ (get_attr K C D S ino' s).0)

  module _ (serves : Serves K) (fits : dir < 2 ^ 64) where
    add_inode-Created :
        (mode : ℕ)
        → K.has inodes s.db ≡ true
        → IsNumbered K s.db
        → Created mode (add_inode K C D S dir name mode s)
    unfolding add_inode stat_of
    add_inode-Created mode there numbers =
        let (ino, run, above, small, fresh, (got, (others, names, log))) =
          allocate_inode-Allocated K C D S serves mode s there numbers in
        let s1 = (allocate_inode K C D S mode s).1 in
        let s2 : TransactionEngine K D = record s1 { db = with_dentry K dir name ino s1.db } in
        let at : meta_at K S ino s1.db ≡ ok (new_metadata K C D S ino mode) =
          get_metadata-at K C D S serves ino s1 (ap (λ out. out.0) got) in
        rw (run, add_dentry-run K C D serves dir name ino s1)
          (
            ino,
            refl,
            fresh,
            lookup-run K C D S serves dir name s2
                ∙ ap (λ r. (map_err r no_entry, s2)) (entry_at-added K dir name s1.db ino small),
            get_attr-run K C D S serves ino s2
                ∙ ap (λ r. (r, s2))
                    (stat_at-ok K C D S ino s2
                      (meta_at-with_dentry K S ino dir name ino s1.db ∙ at)),
            (λ dir' name' f apart. lookup-same K C D S serves s s2 dir' name' (
                entry_at-others K dir name s1.db ino dir' name' fits f apart
                ∙ sym (ap (λ out. out.0) (lookup_dentry-run K C D serves dir' name' s1))
                ∙ names dir' name'
                ∙ ap (λ out. out.0) (lookup_dentry-run K C D serves dir' name' s))),
            (λ ino' f ne. get_attr-same K C D S serves s s2 ino' (
                meta_at-with_dentry K S ino' dir name ino s1.db
                ∙ get_metadata-at K C D S serves ino' s1 (others ino' f ne)
                ∙ sym (get_metadata-at K C D S serves ino' s refl))),
          )

    -- In a database that serves and has a bucket of inodes, where every key is an inode number below
    -- the last: `create` and `mkdir` make an empty inode with one link, the times 0, root as its
    -- owner, and the given permission with their file type, under a number that had no metadata, and a lookup of the name finds it, also where the name had
    -- an entry before. Every other name and every other inode is as before.
    pub create-Created :
        (perm : ℕ)
        → K.has inodes s.db ≡ true
        → IsNumbered K s.db
        → Created (bit_or 0o100000 perm) (create K C D S dir name perm s)
          × Created (bit_or 0o040000 perm) (mkdir K C D S dir name perm s)
    unfolding create mkdir
    create-Created perm there numbers = (
      add_inode-Created (bit_or 0o100000 perm) there numbers,
      add_inode-Created (bit_or 0o040000 perm) there numbers,
    )
