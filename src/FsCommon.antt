-- ===== src/FsCommon.antt =====
-- src/fs_common.rs: the root inode, unmount and statistics for the binding to vfscore in src/rvfs2.
-- The counter of these is the DBFS_INODE_NUMBER of src/inode_common.rs.
pub mod Root
use dbfs.Prelude.{ℕ, Bool, true, false, replicate, ◌==◌}
use dbfs.Prelude.Res.{ok, err, panic, assert}
use dbfs.Prelude.Words.{add64}
use dbfs.Common.Error.{DbfsResult}
use dbfs.Common.Keys.{ino_key, k_mode, k_hard_links, k_uid, k_gid, k_atime, k_mtime, k_ctime}
use dbfs.Common.Permission.{from_bits_truncate, insert, s_ifdir}
use dbfs.Common.Time.{DbfsTimeSpec}
use dbfs.Kv.{Kv}
use dbfs.Store.Tx.{
  Tx, State, Fs, lift, ◌>>=◌, ◌>>◌, or_panic, no_bucket, create_bucket, put_int, put_time,
  begin_with,
}
use dbfs.Super.{DbfsFsStat}

module _ (K : Kv) where
  open K use {Db}

  -- The pairs of the new inode; `old` is the counter before it was raised.
  unfoldable pub root_pairs : ℕ → ℕ → DbfsTimeSpec → ℕ → Tx Db (Unit {0})
  root_pairs uid gid ctime old =
      let b = ino_key 1 in
      do
        lift (assert (old == 1))
        or_panic (put_int K 2 b k_mode (insert (from_bits_truncate 0o755) s_ifdir))
        or_panic (put_int K 4 b k_hard_links 2)
        or_panic (put_int K 4 b k_uid uid)
        or_panic (put_int K 4 b k_gid gid)
        or_panic (put_time K b k_atime ctime)
        or_panic (put_time K b k_mtime ctime)
        or_panic (put_time K b k_ctime ctime)

  -- `drop(tx); Ok(1)`: what the transaction did is given up.
  abbrev dropped : State Db → DbfsResult (Unit {0} × Db) → DbfsResult ℕ × State Db
  dropped s (ok (u, d)) = (ok 1, s)
  dropped s (err e) = (err e, s)
  dropped s panic = (panic, s)

  -- The counter is raised once the bucket is there, and stays raised.
  abbrev counted_root :
      ℕ → ℕ → DbfsTimeSpec → State Db → DbfsResult (Unit {0} × Db) → DbfsResult ℕ × State Db
  counted_root uid gid ctime s (ok (u, d)) =
      dropped (record s { next_inode = add64 s.next_inode 1 })
        (root_pairs uid gid ctime s.next_inode d)
  counted_root uid gid ctime s (err e) = (panic, s)
  counted_root uid gid ctime s panic = (panic, s)

  abbrev root_in :
      ℕ → ℕ → DbfsTimeSpec → State Db → DbfsResult (Bool × Db) → DbfsResult ℕ × State Db
  root_in uid gid ctime s (ok (true, d)) =
      counted_root uid gid ctime s (create_bucket K (ino_key 1) d)
  root_in uid gid ctime s (ok (false, d)) = (ok 1, s)
  root_in uid gid ctime s (err e) = (err e, s)
  root_in uid gid ctime s panic = (panic, s)

  unfoldable pub dbfs_common_root_inode : ℕ → ℕ → DbfsTimeSpec → Fs Db ℕ
  unfolding root_pairs
  dbfs_common_root_inode uid gid ctime s =
      root_in uid gid ctime s (begin_with K true (no_bucket K (ino_key 1)) s)

  unfoldable pub dbfs_common_umount : Fs Db (Unit {0})
  dbfs_common_umount s = (ok tt, s)

  -- The arguments are not used.
  unfoldable pub dbfs_common_statfs : ℕ → ℕ → ℕ → ℕ → ℕ → Fs Db DbfsFsStat
  dbfs_common_statfs total_blocks free_blocks total_files free_files block_size s = (
    ok (record {
      f_bsize = 4096;
      f_frsize = 4096;
      f_blocks = 0;
      f_bfree = 0;
      f_bavail = 0;
      f_files = 0;
      f_ffree = 0;
      f_favail = 0;
      f_fsid = 0;
      f_flag = 0;
      f_namemax = 255;
      name = replicate 32 0;
    }),
    s,
  )
