-- ===== src/Vfs/Mount/Root.antt =====
-- The root directory that a mount leaves.
use dbfs.Prelude.{
  ℕ, ◌≡◌, refl, sym, ap, ◌∙◌, true, false, Bool-cases, inl, inr, Option, none, some, Bytes, codes,
  same, same_refl, same→eq, arith,
}
use dbfs.Prelude.Res.{Res, ok, map_err}
use dbfs.Bytes.{be_bytes, decimal}
use dbfs.Prelude.Words.{pos}
use dbfs.Common.Error.{DbfsResult}
use dbfs.Common.Keys.{super_blk, k_disk_size}
use dbfs.Kv.{Kv}
use dbfs.Kv.Cursor.{Cursor}
use dbfs.Store.Atomic.{Serves}
use dbfs.Store.Laws.{no_bucket_step, create_bucket_step, put_step, get_bucket_step}
use dbfs.Engine.Index.{Serde, TransactionEngine, inodes, dir_bucket, number_or_other}
use dbfs.Engine.Inodes.Allocate.{IsNumbered}
use dbfs.Engine.Inodes.Meta.{meta_at}
use dbfs.Engine.Dentries.Lookup.{entry_at, number_or_other-be_bytes}
use dbfs.Engine.Steps.{batch_tx-ok}
use dbfs.Vfs.{VfsError, VfsFileStat, io_error, no_entry, stat_of, lookup, get_attr}
use dbfs.Vfs.Names.{lookup-run, get_attr-run, stat_at-ok}
use dbfs.LogManager.{BlockDevice}
use dbfs.Vfs.Mount.{k_magic, dir_1, mount_root, format_body, mount_body, mount_init}

dir_bucket_one : dir_bucket 1 ≡ dir_1
unfolding dir_bucket decimal
dir_bucket_one = refl

-- What the root directory shows: an empty directory of root with the permission bits 755 and two
-- links, all times 0.
abbrev pub root_stat : VfsFileStat
root_stat = record {
  st_size = 0;
  st_ino = 1;
  st_mode = 0o040755;
  st_nlink = 2;
  st_uid = 0;
  st_gid = 0;
  st_atime = pos 0;
  st_mtime = pos 0;
  st_ctime = pos 0;
}

module _ (K : Kv) (S : Serde) where
  open K use {Db}

  -- The contents of a new file system.
  formatted : ℕ → Db → Db
  formatted disk_size d = K.with_kv dir_1 (codes "..") (be_bytes 8 1) (
      K.with_kv dir_1 (codes ".") (be_bytes 8 1) (
        K.with_bucket dir_1 (
          K.with_kv inodes (be_bytes 8 1) (S.serializes mount_root).0 (
            K.with_kv super_blk k_disk_size (be_bytes 8 disk_size) (
              K.with_kv super_blk k_magic (be_bytes 4 0x44424653)
                (K.with_bucket super_blk (K.with_bucket inodes d)))))))

  -- A database with none of the three buckets.
  pub record IsNew (d : Db) : Type 0 where
    pub no_inodes : K.has inodes d ≡ false
    pub no_super_blk : K.has super_blk d ≡ false
    pub no_root : K.has dir_1 d ≡ false

  module _ (disk_size : ℕ) (d : Db) where
    format_body-run : IsNew d → format_body K S disk_size d ≡ ok (tt, formatted disk_size d)
    unfolding format_body formatted
    format_body-run new = simp (
      create_bucket_step K,
      put_step K,
      get_bucket_step K,
      K.has-with_bucket,
      K.has-with_kv,
      new.no_inodes,
      new.no_super_blk,
      new.no_root,
      (S.serializes mount_root).1,
    )

    has-formatted : K.has inodes (formatted disk_size d) ≡ true
    unfolding formatted
    has-formatted = simp (K.has-with_kv, K.has-with_bucket)

    meta_at-formatted : meta_at K S 1 (formatted disk_size d) ≡ ok mount_root
    unfolding formatted
    meta_at-formatted = simp (
      K.has-with_kv,
      K.has-with_bucket,
      K.get_kv-with_kv,
      K.get_kv-with_bucket,
      same_refl (be_bytes 8 1),
      S.read_back mount_root (S.serializes mount_root).1,
    )

    entries-formatted :
        (entry_at K 1 (codes ".") (formatted disk_size d) ≡ ok 1)
        × (entry_at K 1 (codes "..") (formatted disk_size d) ≡ ok 1)
    unfolding formatted
    entries-formatted = rw dir_bucket_one (
      simp (
        K.has-with_kv,
        K.has-with_bucket,
        K.get_kv-with_kv,
        number_or_other-be_bytes 1 (omega arith),
      ),
      simp (
        K.has-with_kv,
        K.has-with_bucket,
        K.get_kv-with_kv,
        number_or_other-be_bytes 1 (omega arith),
      ),
    )

    IsNumbered-formatted : IsNumbered K (formatted disk_size d)
    unfolding formatted
    IsNumbered-formatted key v h = elim (Bool-cases (same (be_bytes 8 1) key)) [
      | inl e ↦ (
        1,
        ap number_or_other (sym (same→eq (be_bytes 8 1) key e))
            ∙ number_or_other-be_bytes 1 (omega arith),
        omega arith,
      )
      | inr ne ↦ absurd (nothing (sym (empty ne) ∙ h))
    ]
      where
        nothing : ◌≡◌ {A = Option Bytes} none (some v) → ⊥
        nothing e = cc

        empty : same (be_bytes 8 1) key ≡ false → K.get_kv inodes key (formatted disk_size d) ≡ none
        empty ne = unfold formatted in simp (K.get_kv-with_kv, K.get_kv-with_bucket, ne)

-- `.map_err(|_| VfsError::IoError)` on a reply and the state beside it.
abbrev relabelled :
    (K : Kv) (D : BlockDevice)
    → DbfsResult (Unit {0}) × TransactionEngine K D
    → Res VfsError (Unit {0}) × TransactionEngine K D
relabelled K D out = (map_err out.0 io_error, out.1)

module _ (K : Kv) (C : Cursor K) (D : BlockDevice) (S : Serde) (disk_size : ℕ)
    (s : TransactionEngine K D) where
  -- The root directory has its attributes and its two entries, the numbers of the inodes are ready
  -- for an allocation, and one more mount changes nothing.
  abbrev pub RootMounted : Type 0
  RootMounted =
      let out = mount_init K C D S disk_size s in
      (out.0 ≡ ok tt)
      × (get_attr K C D S 1 out.1 ≡ (ok root_stat, out.1))
      × (lookup K C D S 1 (codes ".") out.1 ≡ (ok 1, out.1))
      × (lookup K C D S 1 (codes "..") out.1 ≡ (ok 1, out.1))
      × (K.has inodes out.1.db ≡ true)
      × IsNumbered K out.1.db
      × ((size : ℕ) → mount_init K C D S size out.1 ≡ (ok tt, out.1))

  module _ (serves : Serves K) where
    mount-new :
        IsNew K S s.db
        → mount_init K C D S disk_size s ≡ (ok tt, record s { db = formatted K S disk_size s.db })
    unfolding mount_init mount_body
    mount-new new = ap (relabelled K D) (
        batch_tx-ok K C D serves (mount_body K S disk_size) s {d = formatted K S disk_size s.db} (
          rw (no_bucket_step K inodes s.db, new.no_inodes, format_body-run K S disk_size s.db new)))

    mount-again : K.has inodes s.db ≡ true → mount_init K C D S disk_size s ≡ (ok tt, s)
    unfolding mount_init mount_body
    mount-again there = ap (relabelled K D) (
        batch_tx-ok K C D serves (mount_body K S disk_size) s {d = s.db}
          (rw (no_bucket_step K inodes s.db, there)))

module _ (K : Kv) (C : Cursor K) (D : BlockDevice) (S : Serde) (serves : Serves K) (disk_size : ℕ)
    (s : TransactionEngine K D) where
  -- In a database that serves and has none of the three buckets: a mount makes the root directory, of
  -- mode 0o040755 with two links, the owner root and the times 0, and with the entries `.` and `..`, leaves the bucket of the inodes with numbered keys
  -- only, as an allocation needs it, and a later mount, whatever the size of the device, changes
  -- nothing.
  pub mount_init-RootMounted : IsNew K S s.db → RootMounted K C D S disk_size s
  unfolding stat_of
  mount_init-RootMounted new =
      let d' = formatted K S disk_size s.db in
      let s' : TransactionEngine K D = record s { db = d' } in
      let (dot, dots) = entries-formatted K S disk_size s.db in
      rw (mount-new K C D S disk_size s serves new) (
        refl,
        get_attr-run K C D S serves 1 s'
            ∙ ap (λ r. (r, s')) (stat_at-ok K C D S 1 s' (meta_at-formatted K S disk_size s.db)),
        lookup-run K C D S serves 1 (codes ".") s' ∙ ap (λ r. (map_err r no_entry, s')) dot,
        lookup-run K C D S serves 1 (codes "..") s' ∙ ap (λ r. (map_err r no_entry, s')) dots,
        has-formatted K S disk_size s.db,
        IsNumbered-formatted K S disk_size s.db,
        (λ size. mount-again K C D S size s' serves (has-formatted K S disk_size s.db)),
      )
