-- ===== src/Inode/Body/Attr.antt =====
-- `dbfs_common_attr`, `dbfs_common_lookup`, `dbfs_common_access` of src/inode.rs and
-- `dbfs_common_readlink` of src/link.rs: what is read of an inode.
use dbfs.Prelude.{ℕ, ◌%◌, ◌^◌, min, Bytes, Bool, length, take, drop, ◌++◌, if◌then◌else◌}
use dbfs.Prelude.Res
use dbfs.Prelude.Res.{err}
use dbfs.Prelude.Words.{add64, sub64, checked_div}
use dbfs.Common.Error.{not_found}
use dbfs.Common.Permission.{from_bits, file_type_of, is_device}
use dbfs.Common.Time.{epoch}
use dbfs.Common.Attr.{DbfsAttr}
use dbfs.Common.Keys.{
  ino_key, generate_data_key, k_size, k_mode, k_hard_links, k_uid, k_gid, k_block_size, k_atime,
  k_mtime, k_ctime, k_dev, k_data,
}
use dbfs.Access.{checkout_access}
use dbfs.Kv.{Kv}
use dbfs.Store.Tx.{
  Tx, pure, lift, ◌>>=◌, ◌>>◌, get_bucket, get_kv, value, value_int, value_time, entry_number,
}

module _ (K : Kv) where
  open K use {Db}

  -- `dbfs_common_attr`
  unfoldable pub attr_body : ℕ → Tx Db DbfsAttr
  attr_body number = do
    let b = ino_key number
    get_bucket K b
    size ← value_int K 8 b k_size
    bits ← value_int K 2 b k_mode
    mode ← lift (Res.unwrap (from_bits bits))
    file_type ← lift (file_type_of mode)
    n_links ← value_int K 4 b k_hard_links
    uid ← value_int K 4 b k_uid
    gid ← value_int K 4 b k_gid
    blksize ← value_int K 4 b k_block_size
    blocks ← lift (checked_div (sub64 (add64 size blksize) 1) blksize)
    atime ← value_time K b k_atime
    mtime ← value_time K b k_mtime
    ctime ← value_time K b k_ctime
    rdev ← if is_device file_type then value_int K 4 b k_dev else pure 0
    pure (record {
      ino = number;
      size = size;
      blocks = blocks;
      atime = atime;
      mtime = mtime;
      ctime = ctime;
      crtime = epoch;
      kind = file_type;
      perm = mode;
      nlink = n_links;
      uid = uid;
      gid = gid;
      rdev = rdev;
      blksize = blksize;
      padding = 0;
      flags = 0;
    })

  -- The first half of `dbfs_common_lookup`: the number that the name stands for.
  unfoldable pub lookup_body : ℕ → Bytes → Tx Db ℕ
  lookup_body dir name = do
    let b = ino_key dir
    get_bucket K b
    found ← get_kv K b (generate_data_key name)
    v ← lift (Res.ok_or found not_found)
    lift (entry_number v)

  -- `dbfs_common_access`. It hands `checkout_access` the caller where that expects the inode, and the
  -- inode where that expects the caller.
  unfoldable pub access_body : ℕ → ℕ → ℕ → ℕ → Tx Db Bool
  access_body p_uid p_gid ino mask = do
    let b = ino_key ino
    get_bucket K b
    mode ← value_int K 2 b k_mode
    uid ← value_int K 4 b k_uid
    gid ← value_int K 4 b k_gid
    pure (checkout_access p_uid p_gid mode uid gid (mask % 2 ^ 16))

  -- `dbfs_common_readlink`: how many bytes, and the buffer with them written over its front.
  unfoldable pub readlink_body : ℕ → Bytes → Tx Db (ℕ × Bytes)
  readlink_body ino buf = do
    let b = ino_key ino
    get_bucket K b
    v ← value K b k_data
    let len = min (length v) (length buf)
    pure (len, take len v ++ drop len buf)
