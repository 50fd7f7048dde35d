-- ===== src/Inode/Create/File.antt =====
-- `dbfs_common_create` of a regular file, as a whole.
use dbfs.Prelude.{
  ℕ, ◌+◌, ◌^◌, ◌<◌, ◌≡◌, refl, ap, ◌∙◌, true, false, Option, none, some, Bytes, bit_and, same,
  same→eq, Bool-cases, inl, inr, if◌then◌else◌,
}
use dbfs.Prelude.Res.{ok, err}
use dbfs.Prelude.Words.{add64}
use dbfs.Bytes.{decimal}
use dbfs.Common.Permission.{contains, s_ifdir, s_iflnk, s_ifreg, regular_file}
use dbfs.Common.Error.{DbfsResult, access_error}
use dbfs.Common.Time.{DbfsTimeSpec, epoch}
use dbfs.Common.Attr.{DbfsAttr}
use dbfs.Common.Keys.{ino_key, generate_data_key}
use dbfs.Access.{checkout_access}
use dbfs.Access.SetId.{file_type_of-type_bits}
use dbfs.Kv.{Kv}
use dbfs.Store.Tx.{State}
use dbfs.Store.Fs.{fetch_inode_number}
use dbfs.Store.Atomic.{Serves, write_tx-ok, write_tx-err}
use dbfs.Inode.Body.Create.{create_body, created_shape}
use dbfs.Inode.Row.{Row, IsRow, Holds, Holds-same}
use dbfs.Inode.Create.Mode.{
  regular_mode, regular_gid, regular_flags, created_mode-regular_mode, creation_gid-regular_gid,
}
use dbfs.Inode.Create.{
  entered, filled, file_row, create_entry_lem, create_entry_refused, create_inode_file,
  Holds-filled, filled-other, Holds-entered, entered-entry, entered-other,
}
use dbfs.Inode.{dbfs_common_create}

-- A directory that is there and an inode that is not have different buckets.
absent-ne :
    (K : Kv) (d : K.Db) (a b : Bytes) → K.has a d ≡ false → K.has b d ≡ true → same a b ≡ false
absent-ne K d a b no_a yes_b = elim (Bool-cases (same a b)) [
  | inl e ↦ cc (ap (λ v. K.has v d) (same→eq a b e))
  | inr e ↦ e
]

abbrev pub file_attr : ℕ → ℕ → ℕ → ℕ → DbfsTimeSpec → DbfsAttr
file_attr number mode uid gid t = record {
  ino = number;
  size = 0;
  blocks = 0;
  atime = t;
  mtime = t;
  ctime = t;
  crtime = epoch;
  kind = regular_file;
  perm = mode;
  nlink = 1;
  uid = uid;
  gid = gid;
  rdev = 0;
  blksize = 512;
  padding = 0;
  flags = 0;
}

module _ (K : Kv) (s : State K.Db) (dir : ℕ) (name : Bytes) (uid gid : ℕ) (t : DbfsTimeSpec)
    (rest : ℕ) (target : Option Bytes) (dev : Option ℕ) (r : Row) where
  abbrev permission : ℕ
  permission = s_ifreg + rest

  abbrev new_mode : ℕ
  new_mode = regular_mode uid rest

  abbrev new_gid : ℕ
  new_gid = regular_gid r.gid rest gid

  abbrev new_row : Row
  new_row = file_row new_mode uid new_gid t

  abbrev within : K.Db
  within = entered K s.next_inode dir name (add64 r.size 1) t s.db

  abbrev final : K.Db
  final = filled K s.next_inode new_row within

  -- What a creation replies and leaves.
  abbrev pub FileCreated : DbfsResult DbfsAttr × State K.Db → Type 0
  FileCreated out =
      (out.0 ≡ ok (file_attr s.next_inode new_mode uid new_gid t))
      × (out.1.next_inode ≡ add64 s.next_inode 1)
      × Holds K s.next_inode new_row out.1.db
      × Holds K dir (record r { size = add64 r.size 1; mtime = t; ctime = t }) out.1.db
      × ((other : Bytes)
          → K.get_kv (ino_key dir) (generate_data_key other) out.1.db ≡ (
              if same name other
              then some (decimal s.next_inode)
              else K.get_kv (ino_key dir) (generate_data_key other) s.db))
      × ((b k : Bytes)
          → same (ino_key s.next_inode) b ≡ false
          → same (ino_key dir) b ≡ false
          → K.get_kv b k out.1.db ≡ K.get_kv b k s.db)

  module _ (serves : Serves K) (h : Holds K dir r s.db) (f : IsRow r)
      (may : checkout_access r.uid r.gid (bit_and r.mode 0o777) uid gid 2 ≡ true)
      (absent : K.has (ino_key s.next_inode) s.db ≡ false) (small : rest < 2 ^ 12) where
    apart : same (ino_key s.next_inode) (ino_key dir) ≡ false
    apart = absent-ne K s.db (ino_key s.next_inode) (ino_key dir) absent h.there

    body_runs :
        create_body K s.next_inode dir name uid gid t permission target dev s.db
        ≡ ok (
          record { mode = new_mode; hard_link = 1; file_size = 0; dev = none; gid = new_gid },
          final,
        )
    unfolding create_body
    body_runs =
        let flags : (contains permission s_ifdir ≡ false)
            × (contains permission s_iflnk ≡ false)
            × ((target : Option Bytes) (dev : Option ℕ)
                → created_shape permission target dev ≡ ok (1, 0, none)) =
          regular_flags rest small in
        rw (
          create_entry_lem K s.next_inode dir name uid gid t s.db r h f may,
          creation_gid-regular_gid r.gid rest gid small,
          create_inode_file K s.next_inode dir uid t permission target dev new_gid r.mode within
              (simp (K.has-with_kv) absent) flags.0 flags.1 (flags.2 target dev),
          created_mode-regular_mode uid rest r.mode small,
        )

    -- The reply and the state after it.
    create_runs : dbfs_common_create K dir name uid gid t permission target dev s ≡ (
      ok (file_attr s.next_inode new_mode uid new_gid t),
      record { db = final; next_inode = add64 s.next_inode 1 },
    )
    unfolding dbfs_common_create fetch_inode_number
    create_runs = rw (
      write_tx-ok K (create_body K s.next_inode dir name uid gid t permission target dev)
          (record s { next_inode = add64 s.next_inode 1 }) serves body_runs,
      file_type_of-type_bits regular_file rest small,
    )

    -- In a database that serves, with a well-formed directory that the caller may write to and an
    -- inode number that has no bucket, creating a regular file succeeds: the new inode is empty
    -- with one link, the caller as its owner and the given permission bits, of which a caller other than
    -- root loses the two set-id bits, and has the caller's group, or the directory's where the permission
    -- asks for it by its set-group-id bit. The name stands for it, the directory counts one
    -- more entry and has the given time, and every other entry and every other inode is as before.
    pub create_file : FileCreated (dbfs_common_create K dir name uid gid t permission target dev s)
    create_file =
        let row = new_row in
        rw create_runs (
          refl,
          refl,
          Holds-filled K s.next_inode row within,
          Holds-same K dir (record r { size = add64 r.size 1; mtime = t; ctime = t }) within final
              (λ k. (filled-other K s.next_inode row within (ino_key dir) k apart).0)
              (filled-other K s.next_inode row within (ino_key dir) name apart).1
              (Holds-entered K s.next_inode t dir name (add64 r.size 1) s.db r h),
          (λ other.
              (filled-other K s.next_inode row within (ino_key dir) (generate_data_key other)
                apart).0
              ∙ entered-entry K s.next_inode t dir name other (add64 r.size 1) s.db),
          (λ b k ne_new ne_dir.
              (filled-other K s.next_inode row within b k ne_new).0
              ∙ (entered-other K s.next_inode t dir name (add64 r.size 1) s.db b k ne_dir).0),
        )

module _ (K : Kv) (s : State K.Db) (dir : ℕ) (name : Bytes) (uid gid : ℕ) (t : DbfsTimeSpec)
    (target : Option Bytes) (dev : Option ℕ) (r : Row) where
  -- In a database that serves, with a well-formed directory that the caller may not write to, a
  -- creation of any kind is refused and the contents stay as they were, but the inode number is
  -- used up.
  pub create_refused :
      Serves K
      → Holds K dir r s.db
      → IsRow r
      → checkout_access r.uid r.gid (bit_and r.mode 0o777) uid gid 2 ≡ false
      → (p : ℕ)
      → dbfs_common_create K dir name uid gid t p target dev s
        ≡ (err access_error, record s { next_inode = add64 s.next_inode 1 })
  unfolding dbfs_common_create fetch_inode_number
  create_refused serves h f denied p = rw (
      write_tx-err K (create_body K s.next_inode dir name uid gid t p target dev)
        (record s { next_inode = add64 s.next_inode 1 }) serves refused)
    where
      refused : create_body K s.next_inode dir name uid gid t p target dev s.db ≡ err access_error
      refused =
          unfold create_body in
          rw (create_entry_refused K s.next_inode dir name uid gid t s.db r h f denied)
