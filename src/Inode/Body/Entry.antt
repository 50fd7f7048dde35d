-- ===== src/Inode/Body/Entry.antt =====
-- The transactions that change one directory entry: `dbfs_common_link` and `dbfs_common_rmdir` of
-- src/inode.rs, `dbfs_common_unlink` of src/link.rs.
use dbfs.Prelude.{ℕ, Bytes, Option, none, some, Bool, not, ◌&&◌, bit_and, leb, ◌==◌, if◌then◌else◌}
use dbfs.Prelude.Res
use dbfs.Prelude.Words.{add64, sub64, add32, sub32}
use dbfs.Bytes.{decimal}
use dbfs.Common.Error.{access_error, not_found, not_empty}
use dbfs.Common.Permission.{from_bits_truncate, contains, s_isvtx}
use dbfs.Common.Time.{DbfsTimeSpec}
use dbfs.Common.Keys.{
  ino_key, generate_data_key, k_size, k_mode, k_hard_links, k_uid, k_gid, k_mtime, k_ctime,
}
use dbfs.Access.{checkout_access, access_w_ok}
use dbfs.Kv.{Kv}
use dbfs.Store.Tx.{
  Tx, pure, lift, or_err, or_panic, ◌>>=◌, ◌>>◌, get_bucket, delete_bucket, value, value_int, put,
  put_int, put_time, delete, entry_number,
}

-- The "sticky bit" rule: in a sticky directory only root, its owner and the owner of the entry may
-- take an entry away.
abbrev pub sticky_bars : ℕ → ℕ → ℕ → ℕ → Bool
sticky_bars mode r_uid dir_uid entry_uid =
    contains (from_bits_truncate mode) s_isvtx
    && not (r_uid == 0)
    && not (r_uid == dir_uid)
    && not (r_uid == entry_uid)

module _ (K : Kv) where
  open K use {Db}

  -- `dbfs_common_link`, behind the permission check.
  unfoldable pub link_body : ℕ → ℕ → Bytes → DbfsTimeSpec → Tx Db (Unit {0})
  link_body ino new_ino name ctime = do
    let b = ino_key new_ino
    get_bucket K b
    or_panic (put K b (generate_data_key name) (decimal ino))
    size ← value_int K 8 b k_size
    put_int K 8 b k_size (add64 size 1)
    put_time K b k_ctime ctime
    put_time K b k_mtime ctime
    let old = ino_key ino
    get_bucket K old
    hard_links ← value_int K 4 old k_hard_links
    put_int K 4 old k_hard_links (add32 hard_links 1)
    put_time K old k_ctime ctime

  -- The inode that `dbfs_common_unlink` takes a link from: the given one, or the entry's.
  unfoldable pub unlink_target : Option ℕ → Bytes → Tx Db ℕ
  unlink_target (some ino) v = do get_bucket K (ino_key ino); pure ino
  unlink_target none v = do
    ino ← lift (entry_number v)
    or_err not_found (get_bucket K (ino_key ino))
    pure ino

  -- The end of `dbfs_common_unlink`: the last link takes the inode with it.
  unfoldable pub drop_link : ℕ → DbfsTimeSpec → Tx Db (Unit {0})
  drop_link ino c_time = do
    let b = ino_key ino
    h_link ← value_int K 4 b k_hard_links
    if h_link == 1
        then delete_bucket K b
        else do put_int K 4 b k_hard_links (sub32 h_link 1); put_time K b k_ctime c_time

  -- `dbfs_common_unlink`
  unfoldable pub unlink_body : ℕ → ℕ → ℕ → Bytes → Option ℕ → DbfsTimeSpec → Tx Db (Unit {0})
  unlink_body uid gid dir name ino c_time = do
    let p = ino_key dir
    get_bucket K p
    v ← value K p (generate_data_key name)
    p_uid ← value_int K 4 p k_uid
    p_gid ← value_int K 4 p k_gid
    p_perm ← value_int K 2 p k_mode
    lift (
        Res.guard (checkout_access p_uid p_gid (bit_and p_perm 0o777) uid gid access_w_ok)
          access_error)
    ino ← unlink_target ino v
    ino_uid ← value_int K 4 (ino_key ino) k_uid
    lift (Res.guard (not (sticky_bars p_perm uid p_uid ino_uid)) access_error)
    delete K p (generate_data_key name)
    size ← value_int K 8 p k_size
    put_int K 8 p k_size (sub64 size 1)
    put_time K p k_ctime c_time
    put_time K p k_mtime c_time
    drop_link ino c_time

  -- `dbfs_common_rmdir`
  unfoldable pub rmdir_body : ℕ → ℕ → ℕ → Bytes → DbfsTimeSpec → Tx Db (Unit {0})
  rmdir_body r_uid r_gid p_ino name c_time = do
    let p = ino_key p_ino
    get_bucket K p
    v ← value K p (generate_data_key name)
    number ← lift (entry_number v)
    let b = ino_key number
    or_panic (get_bucket K b)
    size ← value_int K 8 b k_size
    lift (Res.guard (leb size 2) not_empty)
    p_uid ← value_int K 4 p k_uid
    p_gid ← value_int K 4 p k_gid
    p_mode ← value_int K 2 p k_mode
    p_size ← value_int K 8 p k_size
    lift (
        Res.guard (checkout_access p_uid p_gid (bit_and p_mode 0o777) r_uid r_gid access_w_ok)
          access_error)
    uid ← value_int K 4 b k_uid
    lift (Res.guard (not (sticky_bars p_mode r_uid p_uid uid)) access_error)
    put_time K p k_mtime c_time
    put_time K p k_ctime c_time
    delete K p (generate_data_key name)
    put_int K 8 p k_size (sub64 p_size 1)
    delete_bucket K b
