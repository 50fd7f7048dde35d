-- ===== src/Inode.antt =====
-- src/inode.rs and src/link.rs: the operations on inodes and directory entries. The steps of each
-- transaction are in `Body`; here they are run and put together.
pub mod Body
pub mod Row
pub mod Create
pub mod Unlink
pub mod Rmdir
use dbfs.Prelude.{
  ℕ, Bytes, Option, none, some, Bool, true, not, ◌&&◌, ◌||◌, leb, bit_and, ◌==◌, if◌then◌else◌,
}
use dbfs.Prelude.Res
use dbfs.Prelude.Res.{ok, err}
use dbfs.Common.Error.{DbfsResult, access_error, not_found, not_empty}
use dbfs.Common.Permission.{file_type_of, from_bits_truncate, contains, s_ifdir}
use dbfs.Common.Time.{DbfsTimeSpec, epoch}
use dbfs.Common.Attr.{DbfsAttr}
use dbfs.Common.Keys.{slice_size}
use dbfs.Access.{checkout_access, access_w_ok, clear_suid_sgid}
use dbfs.Kv.{Kv}
use dbfs.Store.Tx.{Fs, write_tx, read_tx}
use dbfs.Store.Fs.{pure, lift, or_err, ◌>>=◌, ◌>>◌, fetch_inode_number}
use dbfs.Inode.Body.Attr.{attr_body, lookup_body, access_body, readlink_body}
use dbfs.Inode.Body.Entry.{link_body, unlink_body, rmdir_body}
use dbfs.Inode.Body.Create.{Made, create_body}
use dbfs.Inode.Body.Truncate.{truncate_body, fallocate_body}
use dbfs.Inode.Body.Rename.{Moved, Target, rename_old, rename_new, exchange_body, move_body}

module _ (K : Kv) where
  open K use {Db}

  unfoldable pub dbfs_common_attr : ℕ → Fs Db DbfsAttr
  dbfs_common_attr number = read_tx K (attr_body K number)

  unfoldable pub dbfs_common_lookup : ℕ → Bytes → Fs Db DbfsAttr
  dbfs_common_lookup dir name = do
    number ← read_tx K (lookup_body K dir name)
    dbfs_common_attr number

  unfoldable pub dbfs_common_access : ℕ → ℕ → ℕ → ℕ → Fs Db Bool
  dbfs_common_access p_uid p_gid ino mask = read_tx K (access_body K p_uid p_gid ino mask)

  unfoldable pub dbfs_common_readlink : ℕ → Bytes → Fs Db (ℕ × Bytes)
  dbfs_common_readlink ino buf = read_tx K (readlink_body K ino buf)

  unfoldable pub dbfs_common_link : ℕ → ℕ → ℕ → ℕ → Bytes → DbfsTimeSpec → Fs Db DbfsAttr
  dbfs_common_link uid gid ino new_ino name ctime = do
    attr ← or_err not_found (dbfs_common_attr new_ino)
    lift (
        Res.guard (checkout_access attr.uid attr.gid (bit_and attr.perm 0o777) uid gid access_w_ok)
          access_error)
    write_tx K (link_body K ino new_ino name ctime)
    or_err not_found (dbfs_common_attr ino)

  unfoldable pub dbfs_common_unlink : ℕ → ℕ → ℕ → Bytes → Option ℕ → DbfsTimeSpec → Fs Db (Unit {0})
  dbfs_common_unlink uid gid dir name ino c_time =
      write_tx K (unlink_body K uid gid dir name ino c_time)

  unfoldable pub dbfs_common_rmdir : ℕ → ℕ → ℕ → Bytes → DbfsTimeSpec → Fs Db (Unit {0})
  dbfs_common_rmdir r_uid r_gid p_ino name c_time =
      write_tx K (rmdir_body K r_uid r_gid p_ino name c_time)

  -- The inode number is taken before any check. The kind is worked out after the commit.
  unfoldable pub dbfs_common_create :
      ℕ → Bytes → ℕ → ℕ → DbfsTimeSpec → ℕ → Option Bytes → Option ℕ → Fs Db DbfsAttr
  dbfs_common_create dir name uid gid c_time permission target_path dev = do
    new_number ← fetch_inode_number
    made ← write_tx K (create_body K new_number dir name uid gid c_time permission target_path dev)
    kind ← lift (file_type_of permission)
    pure (record {
      ino = new_number;
      size = made.file_size;
      blocks = 0;
      atime = c_time;
      mtime = c_time;
      ctime = c_time;
      crtime = epoch;
      kind = kind;
      perm = made.mode;
      nlink = made.hard_link;
      uid = uid;
      gid = made.gid;
      rdev = elim made.dev [ none ↦ 0 | some n ↦ n ];
      blksize = 512;
      padding = 0;
      flags = 0;
    })

  unfoldable pub dbfs_common_truncate : ℕ → ℕ → ℕ → DbfsTimeSpec → ℕ → Fs Db DbfsAttr
  dbfs_common_truncate r_uid r_gid ino ctime f_size = do
    attr ← or_err not_found (dbfs_common_attr ino)
    lift (
        Res.guard (checkout_access attr.uid attr.gid attr.perm r_uid r_gid access_w_ok)
          access_error)
    write_tx K (truncate_body K ino ctime f_size attr.size attr.perm)
    pure (record attr {
      size = f_size;
      ctime = ctime;
      mtime = ctime;
      perm = clear_suid_sgid (from_bits_truncate attr.perm);
    })

  unfoldable pub dbfs_common_fallocate : ℕ → ℕ → ℕ → ℕ → ℕ → ℕ → DbfsTimeSpec → Fs Db (Unit {0})
  dbfs_common_fallocate r_uid r_gid ino offset size mode ctime =
      write_tx K (fallocate_body K r_uid r_gid ino offset size mode ctime)

  -- Both directories are read before anything is written, each in a transaction of its own.
  abbrev exchange_or_fail :
      ℕ → Bytes → ℕ → Bytes → Moved → Option Target → DbfsTimeSpec → Fs Db (Unit {0})
  exchange_or_fail old_dir old_name new_dir new_name old none ctime = lift (err not_found)
  exchange_or_fail old_dir old_name new_dir new_name old (some target) ctime =
      write_tx K (exchange_body K old_dir old_name new_dir new_name old target ctime)

  -- A directory is overwritten only if it is empty.
  abbrev may_replace : Option Target → Bool
  may_replace none = true
  may_replace (some target) =
      not (contains (from_bits_truncate target.perm) s_ifdir && not (leb target.size 2))

  -- A directory moves to another parent only if the caller may write to it.
  abbrev may_move : ℕ → ℕ → ℕ → ℕ → Moved → Bool
  may_move r_uid r_gid old_dir new_dir old = not (
      contains (from_bits_truncate old.perm) s_ifdir
      && not (old_dir == new_dir)
      && not (checkout_access old.uid old.gid (bit_and old.perm 0o777) r_uid r_gid access_w_ok))

  unfoldable pub dbfs_common_rename :
      ℕ → ℕ → ℕ → Bytes → ℕ → Bytes → ℕ → DbfsTimeSpec → Fs Db (Unit {0})
  dbfs_common_rename r_uid r_gid old_dir old_name new_dir new_name flags ctime = do
    old ← read_tx K (rename_old K r_uid r_gid old_dir old_name)
    target ← read_tx K (rename_new K r_uid r_gid new_dir new_name)
    if not (bit_and flags 0x2 == 0)
        then exchange_or_fail old_dir old_name new_dir new_name old target ctime
        else (do
          lift (Res.guard (may_replace target) not_empty)
          lift (Res.guard (may_move r_uid r_gid old_dir new_dir old) access_error)
          write_tx K (move_body K old_dir old_name new_dir new_name old target ctime))
