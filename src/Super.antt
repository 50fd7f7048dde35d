-- ===== src/Super.antt =====
-- src/fs_type.rs and src/fuse/mkfs.rs: the super block, which keeps the next inode number between two
-- mounts, the root inode, and the statistics.
pub mod Block
pub mod Mount
pub mod Root
use Prim.Native.String.{String}
use dbfs.Prelude.{
  ℕ, ◌/◌, Bool, true, false, Option, none, some, [], ◌∷◌, ◌++◌, Bytes, codes, replicate, ◌==◌,
}
use dbfs.Prelude.Act
use dbfs.Prelude.Act.{Act}
use dbfs.Prelude.Res
use dbfs.Prelude.Res.{ok, err, panic, assert}
use dbfs.Prelude.Words.{add64, checked_div}
use dbfs.Common.Error.{DbfsError, DbfsResult, try}
use dbfs.Common.Keys.{
  ino_key, generate_data_key, slice_size, super_blk, k_disk_size, k_continue_number, k_size, k_mode,
  k_hard_links, k_uid, k_gid, k_block_size, k_atime, k_mtime, k_ctime,
}
use dbfs.Common.Permission.{from_bits_truncate, insert, s_ifreg, s_ifdir, s_iflnk}
use dbfs.Common.Time.{DbfsTimeSpec}
use dbfs.Kv.{Kv}
use dbfs.Store.Tx.{
  Tx, State, Fs, pure, lift, ◌>>=◌, ◌>>◌, or_panic, no_bucket, get_bucket, create_bucket,
  get_or_create_bucket, put, put_int, put_time, value_int, write_tx, write_tx_unwrap, read_tx,
  commit_to, begin_with, begin_or_panic,
}

abbrev pub k_magic : Bytes
k_magic = codes "magic"

abbrev pub k_blk_size : Bytes
k_blk_size = codes "blk_size"

-- The cases of the type InodeMode of rvfs that `permission_from_mode` tells apart.
pub data InodeMode : Type 0 where
  s_file s_dir s_symlink any_other : InodeMode

abbrev with_type : InodeMode → ℕ → ℕ
with_type s_file permission = insert permission s_ifreg
with_type s_dir permission = insert permission s_ifdir
with_type s_symlink permission = insert permission s_iflnk
with_type any_other permission = permission

unfoldable pub permission_from_mode : InodeMode → ℕ
permission_from_mode inode_mode = with_type inode_mode (from_bits_truncate 0o777)

pub record DbfsFsStat : Type 0 where
  pub f_bsize : ℕ
  pub f_frsize : ℕ
  pub f_blocks : ℕ
  pub f_bfree : ℕ
  pub f_bavail : ℕ
  pub f_files : ℕ
  pub f_ffree : ℕ
  pub f_favail : ℕ
  pub f_fsid : ℕ
  pub f_flag : ℕ
  pub f_namemax : ℕ
  pub name : Bytes

abbrev unwrap_or : Option ℕ → ℕ → ℕ
unwrap_or none n = n
unwrap_or (some m) n = m

module _ (K : Kv) where
  open K use {Db}

  -- `init_db` of src/fuse/mkfs.rs: the super block, in a database that has none.
  unfoldable pub init_body : ℕ → Tx Db (Unit {0})
  init_body size = do
    or_panic (create_bucket K super_blk)
    or_panic (put_int K 8 super_blk k_continue_number 1)
    or_panic (put_int K 4 super_blk k_magic 1111)
    or_panic (put_int K 4 super_blk k_blk_size slice_size)
    or_panic (put_int K 8 super_blk k_disk_size size)

  -- `tx.commit().unwrap()`
  abbrev unwrapped : DbfsResult (Unit {0}) × State Db → DbfsResult (Unit {0}) × State Db
  unwrapped (ok u, s) = (ok u, s)
  unwrapped (err e, s) = (panic, s)
  unwrapped (panic, s) = (panic, s)

  abbrev init_from : ℕ → State Db → DbfsResult (Bool × Db) → DbfsResult (Unit {0}) × State Db
  init_from size s (ok (true, d)) = unwrapped (commit_to K s (init_body size d))
  init_from size s (ok (false, d)) = (ok tt, s)
  init_from size s (err e) = (err e, s)
  init_from size s panic = (panic, s)

  unfoldable pub init_db : ℕ → Fs Db (Unit {0})
  unfolding init_body
  init_db size s = init_from size s (begin_or_panic K true (no_bucket K super_blk) s)

  -- The pairs of a new root inode; `old` is the counter before it was raised.
  unfoldable pub root_body : ℕ → ℕ → DbfsTimeSpec → ℕ → Tx Db (Unit {0})
  unfolding permission_from_mode
  root_body uid gid ctime old =
      let b = ino_key 1 in
      do
        lift (assert (old == 1))
        or_panic (put_int K 2 b k_mode (permission_from_mode s_dir))
        or_panic (put_int K 4 b k_hard_links 2)
        or_panic (put_int K 4 b k_uid uid)
        or_panic (put_int K 4 b k_gid gid)
        or_panic (put_time K b k_atime ctime)
        or_panic (put_time K b k_mtime ctime)
        or_panic (put_time K b k_ctime ctime)
        or_panic (put_int K 4 b k_block_size slice_size)
        or_panic (put_int K 8 b k_size 1)
        or_panic (put K b (generate_data_key (codes ".")) (codes "1"))

  unfoldable pub root_count : Tx Db ℕ
  root_count = do get_bucket K (ino_key 1); value_int K 8 (ino_key 1) k_size

  -- The counter is raised once the bucket is there, and stays raised if a later step fails.
  abbrev made_root :
      ℕ → ℕ → DbfsTimeSpec → State Db → DbfsResult (Unit {0} × Db) → DbfsResult ℕ × State Db
  made_root uid gid ctime s (ok (u, d)) =
      commit_to K (record s { next_inode = add64 s.next_inode 1 })
        ((root_body uid gid ctime s.next_inode >> root_count) d)
  made_root uid gid ctime s (err e) = (panic, s)
  made_root uid gid ctime s panic = (panic, s)

  abbrev root_from :
      ℕ → ℕ → DbfsTimeSpec → State Db → DbfsResult (Bool × Db) → DbfsResult ℕ × State Db
  root_from uid gid ctime s (ok (true, d)) =
      made_root uid gid ctime s (create_bucket K (ino_key 1) d)
  root_from uid gid ctime s (ok (false, d)) = commit_to K s (root_count d)
  root_from uid gid ctime s (err e) = (err e, s)
  root_from uid gid ctime s panic = (panic, s)

  unfoldable pub dbfs_common_root_inode : ℕ → ℕ → DbfsTimeSpec → Fs Db ℕ
  unfolding root_body root_count
  dbfs_common_root_inode uid gid ctime s =
      root_from uid gid ctime s (begin_with K true (no_bucket K (ino_key 1)) s)

  unfoldable pub umount_body : ℕ → Tx Db (Unit {0})
  umount_body c_number = do get_bucket K super_blk; put_int K 8 super_blk k_continue_number c_number

  unfoldable pub dbfs_common_umount : Fs Db (Unit {0})
  unfolding umount_body
  dbfs_common_umount s = write_tx K (umount_body s.next_inode) s

  -- A failure of rvfs is a text.
  abbrev pub Rvfs : Type 0 → Type 0
  Rvfs A = Act String (State Db) A

  unfoldable pub sync_body : ℕ → Tx Db (Unit {0})
  sync_body continue_number = do
    or_panic (get_or_create_bucket K super_blk)
    or_panic (put_int K 8 super_blk k_continue_number continue_number)

  unfoldable pub dbfs_sync_fs : Rvfs (Unit {0})
  unfolding sync_body
  dbfs_sync_fs s = Act.or_err "dbfs_sync_fs error" (write_tx_unwrap K (sync_body s.next_inode)) s

  abbrev or_stored : Option ℕ → Tx Db ℕ
  or_stored none = value_int K 4 super_blk k_magic
  or_stored (some magic) = pure magic

  unfoldable pub statfs_body : Option ℕ → Tx Db (ℕ × ℕ)
  statfs_body magic = do
    get_bucket K super_blk
    disk_size ← value_int K 8 super_blk k_disk_size
    magic ← or_stored magic
    pure (disk_size, magic)

  -- The division panics on a block size of zero.
  abbrev stat_from : ℕ → ℕ → ℕ → ℕ → ℕ → DbfsResult DbfsFsStat
  stat_from blk_size disk_size magic total_inodes mount_flag =
      Res.◌>>=◌ (checked_div disk_size blk_size) λ blocks. ok (record {
        f_bsize = blk_size;
        f_frsize = blk_size;
        f_blocks = blocks;
        f_bfree = blocks;
        f_bavail = blocks;
        f_files = total_inodes;
        f_ffree = 999;
        f_favail = 999;
        f_fsid = magic;
        f_flag = mount_flag;
        f_namemax = 255;
        name = codes "dbfs" ++ replicate 28 0;
      })

  unfoldable pub dbfs_common_statfs : Option ℕ → Option ℕ → Option ℕ → Fs Db DbfsFsStat
  unfolding statfs_body
  dbfs_common_statfs blk_size magic mount_flags =
      Act.◌>>=◌ (read_tx K (statfs_body magic)) λ found s. (
        stat_from (unwrap_or blk_size slice_size) found.0 found.1 s.next_inode
            (unwrap_or mount_flags 0),
        s,
      )
