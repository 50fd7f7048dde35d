-- ===== src/Inode/Create/Lookup.antt =====
-- What `dbfs_common_lookup` and `dbfs_common_attr` tell, and a creation with a lookup behind it.
use dbfs.Prelude.{
  ℕ, ◌+◌, ◌%◌, ◌^◌, ◌<◌, ◌≡◌, refl, ap, ◌∙◌, true, false, Option, some, Bytes, bit_and, same_refl,
  inl, inr, Bool-cases, arith, ◌==◌,
}
use dbfs.Prelude.Res.{ok, unwrap}
use dbfs.Bytes.{decimal}
use dbfs.Bytes.Decimal.{parse_usize-decimal}
use dbfs.Common.Error.{DbfsError}
use dbfs.Common.Permission.{DbfsFileType, regular_file, file_type_of, is_device, s_ifreg}
use dbfs.Common.Time.{DbfsTimeSpec}
use dbfs.Common.Time.RoundTrip.{IsTime}
use dbfs.Common.Keys.{ino_key, generate_data_key}
use dbfs.Access.{checkout_access}
use dbfs.Access.SetId.{file_type_of-type_bits}
use dbfs.Kv.{Kv}
use dbfs.Store.Tx.{State, get_kv, entry_number}
use dbfs.Store.Atomic.{Serves, dropped_tx-ok}
use dbfs.Store.Laws.{get_bucket_at}
use dbfs.Inode.Body.Attr.{attr_body, lookup_body}
use dbfs.Inode.Row.{Row, IsRow, Holds, attr_of, attr_body-Holds}
use dbfs.Inode.{dbfs_common_attr, dbfs_common_lookup, dbfs_common_create}
use dbfs.Inode.Create.{file_row}
use dbfs.Inode.Create.Mode.{regular_mode, regular_gid}
use dbfs.Inode.Create.File.{create_file}

-- The number of a directory entry, below `2 ^ 64`, is written as a decimal text and read back.
pub entry_number-decimal : (n : ℕ) → n < 2 ^ 64 → entry_number (decimal n) ≡ ok n
unfolding entry_number
entry_number-decimal n h = ap unwrap (parse_usize-decimal n h)

module _ (K : Kv) (serves : Serves K) (s : State K.Db) (ino : ℕ) (r : Row)
    (kind : DbfsFileType) where
  -- In a database that serves, the attributes of a well-formed inode other than a device, whose
  -- block size is not 0, are those of its bucket, and reading them changes nothing.
  pub attr-Holds :
      Holds K ino r s.db
      → IsRow r
      → file_type_of {E = DbfsError} r.mode ≡ ok kind
      → is_device kind ≡ false
      → 0 < r.block_size
      → dbfs_common_attr K ino s ≡ (ok (attr_of ino r kind), s)
  unfolding dbfs_common_attr
  attr-Holds h f of_kind no_device pos =
      dropped_tx-ok K (attr_body K ino) s serves false
        (attr_body-Holds K ino r s.db kind h f of_kind no_device pos)

  -- A lookup finds the inode whose number the entry holds, with the attributes of its bucket.
  pub lookup-Holds :
      (dir : ℕ) (name : Bytes)
      → K.has (ino_key dir) s.db ≡ true
      → K.get_kv (ino_key dir) (generate_data_key name) s.db ≡ some (decimal ino)
      → ino < 2 ^ 64
      → Holds K ino r s.db
      → IsRow r
      → file_type_of {E = DbfsError} r.mode ≡ ok kind
      → is_device kind ≡ false
      → 0 < r.block_size
      → dbfs_common_lookup K dir name s ≡ (ok (attr_of ino r kind), s)
  unfolding dbfs_common_lookup
  lookup-Holds dir name there entry fits h f of_kind no_device pos = rw (
    dropped_tx-ok K (lookup_body K dir name) s serves false found,
    attr-Holds h f of_kind no_device pos,
  )
    where
      found : lookup_body K dir name s.db ≡ ok (ino, s.db)
      found =
          unfold lookup_body in
          unfold get_kv in
          rw (get_bucket_at K (ino_key dir) s.db there, entry, entry_number-decimal ino fits)

-- The mode of a new regular file is a `u16` and says that it is a regular file.
regular_mode-kind :
    (uid rest : ℕ)
    → rest < 2 ^ 12
    → (regular_mode uid rest < 2 ^ 16)
      × (file_type_of {E = DbfsError} (regular_mode uid rest) ≡ ok regular_file)
regular_mode-kind uid rest h = elim (Bool-cases (uid == 0)) [
  | inl root ↦ rw root (omega arith, file_type_of-type_bits regular_file rest h)
  | inr other ↦
      rw other (omega arith, file_type_of-type_bits regular_file (rest % 1024) (omega arith))
]

module _ (K : Kv) (s : State K.Db) (dir : ℕ) (name : Bytes) (uid gid : ℕ) (t : DbfsTimeSpec)
    (rest : ℕ) (target : Option Bytes) (dev : Option ℕ) (r : Row) where
  abbrev pub made_row : Row
  made_row = file_row (regular_mode uid rest) uid (regular_gid r.gid rest gid) t

  made_row-IsRow : IsRow r → uid < 2 ^ 32 → gid < 2 ^ 32 → IsTime t → rest < 2 ^ 12 → IsRow made_row
  made_row-IsRow f uid_fits gid_fits time small = record {
    size_fits = omega arith;
    mode_fits = (regular_mode-kind uid rest small).0;
    hard_links_fits = omega arith;
    uid_fits = uid_fits;
    gid_fits = ground (arith, f.gid_fits);
    block_size_fits = omega arith;
    atime_fits = time;
    mtime_fits = time;
    ctime_fits = time;
  }

  -- In a database that serves, with a well-formed directory that the caller may write to, an inode
  -- number below `2 ^ 64` that has no bucket, and ids and a time that fit their words, a regular
  -- file that was created is found under its name: a lookup gives the new inode as an empty
  -- regular file with one link, the caller as its owner, the time of its creation, the permission bits
  -- that were asked for, of which a caller other than root loses the two set-id bits, and the caller's
  -- group, or the directory's where the set-group-id bit was asked for.
  pub create-lookup :
      (serves : Serves K) (h : Holds K dir r s.db) (f : IsRow r)
      (may : checkout_access r.uid r.gid (bit_and r.mode 0o777) uid gid 2 ≡ true)
      (absent : K.has (ino_key s.next_inode) s.db ≡ false) (small : rest < 2 ^ 12)
      (fits : s.next_inode < 2 ^ 64) (uid_fits : uid < 2 ^ 32) (gid_fits : gid < 2 ^ 32)
      (time : IsTime t)
      → let after = (dbfs_common_create K dir name uid gid t (s_ifreg + rest) target dev s).1 in
        dbfs_common_lookup K dir name after
        ≡ (ok (attr_of s.next_inode made_row regular_file), after)
  create-lookup serves h f may absent small fits uid_fits gid_fits time =
      let (reply, next, made, parent, entries, others) =
        create_file K s dir name uid gid t rest target dev r serves h f may absent small in
      let after = (dbfs_common_create K dir name uid gid t (s_ifreg + rest) target dev s).1 in
      lookup-Holds K serves after s.next_inode made_row regular_file dir name parent.there
        (entries name ∙ rw (same_refl name)) fits made
        (made_row-IsRow f uid_fits gid_fits time small) (regular_mode-kind uid rest small).1
        no_device (omega arith)
    where
      no_device : is_device regular_file ≡ false
      no_device = unfold is_device in refl
