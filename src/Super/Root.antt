-- ===== src/Super/Root.antt =====
-- What `init_db` writes into a new database, and the root inode that is made in it.
use dbfs.Prelude.{
  ℕ, ◌^◌, ◌<◌, ◌≡◌, refl, ◌∙◌, true, false, some, Bytes, codes, same, same_refl, arith,
}
use dbfs.Prelude.Res.{ok}
use dbfs.Bytes.{be_bytes}
use dbfs.Common.Keys.{
  ino_key, generate_data_key, slice_size, super_blk, k_disk_size, k_continue_number, k_size, k_mode,
  k_hard_links, k_uid, k_gid, k_block_size, k_atime, k_mtime, k_ctime,
}
use dbfs.Common.Permission.{from_bits_truncate, insert}
use dbfs.Common.Time.{DbfsTimeSpec, time_bytes}
use dbfs.Kv.{Kv}
use dbfs.Store.Atomic.{Serves}
use dbfs.Store.Laws.{no_bucket_step, put_step, create_bucket_step, value_int_at, get_bucket_at}
use dbfs.Store.Tx.{State}
use dbfs.Super.{
  k_magic, k_blk_size, permission_from_mode, s_dir, init_body, init_db, root_body, root_count,
  dbfs_common_root_inode,
}
use dbfs.Super.Block.{SuperBlock}
use dbfs.Super.Mount.{HasBlock}
use dbfs.Inode.Row.{Row, Holds}

-- No inode's bucket has the name of the super block, which is a byte longer.
ino_key-super_blk :
    (ino : ℕ) → (same (ino_key ino) super_blk ≡ false) × (same super_blk (ino_key ino) ≡ false)
unfolding ino_key be_bytes
ino_key-super_blk ino = (ground arith, ground arith)

abbrev pub new_block : SuperBlock
new_block = record { block_size = 32768; magic = 1111 }

abbrev pub new_root : ℕ → ℕ → DbfsTimeSpec → Row
new_root uid gid t = record {
  size = 1;
  mode = 0o40777;
  hard_links = 2;
  uid = uid;
  gid = gid;
  block_size = 32768;
  atime = t;
  mtime = t;
  ctime = t;
}

directory_mode : permission_from_mode s_dir ≡ 0o40777
unfolding permission_from_mode from_bits_truncate insert
directory_mode = refl

module _ (K : Kv) where
  open K use {Db}

  formatted : ℕ → Db → Db
  formatted size d = K.with_kv super_blk k_disk_size (be_bytes 8 size) (
      K.with_kv super_blk k_blk_size (be_bytes 4 slice_size) (
        K.with_kv super_blk k_magic (be_bytes 4 1111)
          (K.with_kv super_blk k_continue_number (be_bytes 8 1) (K.with_bucket super_blk d))))

  rooted : ℕ → ℕ → DbfsTimeSpec → Db → Db
  rooted uid gid t d =
      let b = ino_key 1 in
      K.with_kv b (generate_data_key (codes ".")) (codes "1") (
        K.with_kv b k_size (be_bytes 8 1) (
          K.with_kv b k_block_size (be_bytes 4 slice_size) (
            K.with_kv b k_ctime (time_bytes t) (
              K.with_kv b k_mtime (time_bytes t) (
                K.with_kv b k_atime (time_bytes t) (
                  K.with_kv b k_gid (be_bytes 4 gid) (
                    K.with_kv b k_uid (be_bytes 4 uid) (
                      K.with_kv b k_hard_links (be_bytes 4 2)
                        (K.with_kv b k_mode (be_bytes 2 0o40777) (K.with_bucket b d))))))))))

  module _ (size : ℕ) (d : Db) where
    init_body-run : K.has super_blk d ≡ false → init_body K size d ≡ ok (tt, formatted size d)
    unfolding init_body formatted
    init_body-run new =
        simp (create_bucket_step K, put_step K, K.has-with_bucket, K.has-with_kv, new)

    HasBlock-formatted : HasBlock K new_block (formatted size d)
    unfolding formatted slice_size
    HasBlock-formatted = record {
      there = simp (K.has-with_kv, K.has-with_bucket);
      block_size_at = simp K.get_kv-with_kv;
      magic_at = simp K.get_kv-with_kv;
      block_size_fits = omega arith;
      magic_fits = omega arith;
    }

    formatted-stored :
        (K.get_kv super_blk k_continue_number (formatted size d) ≡ some (be_bytes 8 1))
        × (K.get_kv super_blk k_disk_size (formatted size d) ≡ some (be_bytes 8 size))
    unfolding formatted
    formatted-stored = (simp K.get_kv-with_kv, simp K.get_kv-with_kv)

    has-formatted : (ino : ℕ) → K.has (ino_key ino) (formatted size d) ≡ K.has (ino_key ino) d
    unfolding formatted
    has-formatted ino = simp (K.has-with_kv, K.has-with_bucket, (ino_key-super_blk ino).1)

  module _ (uid gid : ℕ) (t : DbfsTimeSpec) (d : Db) where
    root_body-run :
        root_body K uid gid t 1 (K.with_bucket (ino_key 1) d) ≡ ok (tt, rooted uid gid t d)
    unfolding root_body rooted
    root_body-run =
        rw directory_mode
          (simp (put_step K, K.has-with_bucket, K.has-with_kv, same_refl (ino_key 1)))

    Holds-rooted : Holds K 1 (new_root uid gid t) (rooted uid gid t d)
    unfolding rooted slice_size
    Holds-rooted = record {
      there = simp (K.has-with_kv, K.has-with_bucket, same_refl (ino_key 1));
      size_at = simp (K.get_kv-with_kv, same_refl (ino_key 1));
      mode_at = simp (K.get_kv-with_kv, same_refl (ino_key 1));
      hard_links_at = simp (K.get_kv-with_kv, same_refl (ino_key 1));
      uid_at = simp (K.get_kv-with_kv, same_refl (ino_key 1));
      gid_at = simp (K.get_kv-with_kv, same_refl (ino_key 1));
      block_size_at = simp (K.get_kv-with_kv, same_refl (ino_key 1));
      atime_at = simp (K.get_kv-with_kv, same_refl (ino_key 1));
      mtime_at = simp (K.get_kv-with_kv, same_refl (ino_key 1));
      ctime_at = simp (K.get_kv-with_kv, same_refl (ino_key 1));
    }

    -- The super block keeps all its pairs.
    rooted-super_blk :
        (k : Bytes) → K.get_kv super_blk k (rooted uid gid t d) ≡ K.get_kv super_blk k d
    unfolding rooted
    rooted-super_blk k = simp (K.get_kv-with_kv, K.get_kv-with_bucket, (ino_key-super_blk 1).0)

    HasBlock-rooted : HasBlock K new_block d → HasBlock K new_block (rooted uid gid t d)
    unfolding rooted
    HasBlock-rooted h = record {
      there = simp (K.has-with_kv, K.has-with_bucket, (ino_key-super_blk 1).0, h.there);
      block_size_at = rooted-super_blk k_blk_size ∙ h.block_size_at;
      magic_at = rooted-super_blk k_magic ∙ h.magic_at;
      block_size_fits = h.block_size_fits;
      magic_fits = h.magic_fits;
    }

  root_count-run :
      (d : Db) (r : Row) → Holds K 1 r d → r.size < 2 ^ 64 → root_count K d ≡ ok (r.size, d)
  unfolding root_count
  root_count-run d r h fits = rw (
    get_bucket_at K (ino_key 1) d h.there,
    value_int_at K 8 r.size (ino_key 1) k_size d h.size_at fits,
  )

module _ (K : Kv) (size uid gid : ℕ) (t : DbfsTimeSpec) (s : State K.Db) where
  -- A new super block and a root inode, the next number 2, and nothing to do for a second run.
  abbrev pub FileSystemMade : Type 0
  FileSystemMade =
      let first = init_db K size s in
      let second = dbfs_common_root_inode K uid gid t first.1 in
      (first.0 ≡ ok tt)
      × (second.0 ≡ ok 1)
      × Holds K 1 (new_root uid gid t) second.1.db
      × HasBlock K new_block second.1.db
      × (K.get_kv super_blk k_continue_number second.1.db ≡ some (be_bytes 8 1))
      × (K.get_kv super_blk k_disk_size second.1.db ≡ some (be_bytes 8 size))
      × (second.1.next_inode ≡ 2)
      × ((size' : ℕ) → init_db K size' second.1 ≡ (ok tt, second.1))
      × ((uid' gid' : ℕ) (t' : DbfsTimeSpec)
          → dbfs_common_root_inode K uid' gid' t' second.1 ≡ (ok 1, second.1))

module _ (K : Kv) (serves : Serves K) (s : State K.Db) where
  init_db-new :
      (size : ℕ)
      → K.has super_blk s.db ≡ false
      → init_db K size s ≡ (ok tt, record s { db = formatted K size s.db })
  unfolding init_db
  init_db-new size new = rw (
    serves.begins true s.db,
    no_bucket_step K super_blk s.db,
    new,
    init_body-run K size s.db new,
    serves.commits (formatted K size s.db),
  )

  init_db-again : (size : ℕ) → K.has super_blk s.db ≡ true → init_db K size s ≡ (ok tt, s)
  unfolding init_db
  init_db-again size there = rw (serves.begins true s.db, no_bucket_step K super_blk s.db, there)

  root_inode-new :
      (uid gid : ℕ) (t : DbfsTimeSpec)
      → K.has (ino_key 1) s.db ≡ false
      → s.next_inode ≡ 1
      → dbfs_common_root_inode K uid gid t s
        ≡ (ok 1, record { db = rooted K uid gid t s.db; next_inode = 2 })
  unfolding dbfs_common_root_inode
  root_inode-new uid gid t new first = rw (
    serves.begins true s.db,
    no_bucket_step K (ino_key 1) s.db,
    new,
    create_bucket_step K (ino_key 1) s.db,
    new,
    first,
    root_body-run K uid gid t s.db,
    root_count-run K (rooted K uid gid t s.db) (new_root uid gid t) (Holds-rooted K uid gid t s.db)
        (omega arith),
    serves.commits (rooted K uid gid t s.db),
  )

  root_inode-again :
      (uid gid : ℕ) (t : DbfsTimeSpec) (r : Row)
      → Holds K 1 r s.db
      → r.size < 2 ^ 64
      → dbfs_common_root_inode K uid gid t s ≡ (ok r.size, s)
  unfolding dbfs_common_root_inode
  root_inode-again uid gid t r h fits = rw (
    serves.begins true s.db,
    no_bucket_step K (ino_key 1) s.db,
    h.there,
    root_count-run K s.db r h fits,
    serves.commits s.db,
  )

module _ (K : Kv) (serves : Serves K) (size uid gid : ℕ) (t : DbfsTimeSpec) (s : State K.Db) where
  -- In a database that serves, with no super block and no root inode, and the counter at 1: `init_db`
  -- and the making of the root inode succeed, the super block with its magic number, its block size, the
  -- given disk size and the next inode number 1, and a well-formed root inode of size 1, mode 0o40777,
  -- two links and the given owner, group and time are there, the counter is 2, and both calls, whatever their arguments, change nothing from then
  -- on.
  pub init_db-FileSystemMade :
      K.has super_blk s.db ≡ false
      → K.has (ino_key 1) s.db ≡ false
      → s.next_inode ≡ 1
      → FileSystemMade K size uid gid t s
  init_db-FileSystemMade no_block no_root first =
      let d1 = formatted K size s.db in
      let s1 : State K.Db = record s { db = d1 } in
      let d2 = rooted K uid gid t d1 in
      let s2 : State K.Db = record { db = d2; next_inode = 2 } in
      let root = Holds-rooted K uid gid t d1 in
      let block = HasBlock-rooted K uid gid t d1 (HasBlock-formatted K size s.db) in
      rw
        (
          init_db-new K serves s size no_block,
          root_inode-new K serves s1 uid gid t (has-formatted K size s.db 1 ∙ no_root) first,
        )
        (
          refl,
          refl,
          root,
          block,
          rooted-super_blk K uid gid t d1 k_continue_number ∙ (formatted-stored K size s.db).0,
          rooted-super_blk K uid gid t d1 k_disk_size ∙ (formatted-stored K size s.db).1,
          refl,
          (λ size'. init_db-again K serves s2 size' block.there),
          (λ uid' gid' t'.
              root_inode-again K serves s2 uid' gid' t' (new_root uid gid t) root (omega arith)),
        )
