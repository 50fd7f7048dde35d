-- ===== src/Inode/Body/Create.antt =====
-- `dbfs_common_create` of src/inode.rs: its transaction.
use dbfs.Prelude.{
  ℕ, Bytes, Option, none, some, ◌&&◌, ◌||◌, bit_and, length, codes, ◌==◌, if◌then◌else◌,
}
use dbfs.Prelude.Res
use dbfs.Prelude.Res.{ok, panic}
use dbfs.Prelude.Words.{add64}
use dbfs.Bytes.{decimal}
use dbfs.Common.Error.{DbfsResult, access_error}
use dbfs.Common.Permission.{
  from_bits_truncate, contains, remove, insert, s_ifdir, s_ifsock, s_ifchr, s_ifblk, s_ififo,
  s_iflnk, s_isuid, s_isgid,
}
use dbfs.Common.Time.{DbfsTimeSpec}
use dbfs.Common.Keys.{
  ino_key, generate_data_key, slice_size, k_size, k_mode, k_hard_links, k_uid, k_gid, k_block_size,
  k_atime, k_mtime, k_ctime, k_dev, k_data,
}
use dbfs.Access.{checkout_access, creation_gid}
use dbfs.Kv.{Kv}
use dbfs.Store.Tx.{
  Tx, pure, lift, or_panic, when, ◌>>=◌, ◌>>◌, get_bucket, create_bucket, value_int, put, put_int,
  put_time,
}

-- What the creation settles about the new inode.
pub record Made : Type 0 where
  pub mode : ℕ
  pub hard_link : ℕ
  pub file_size : ℕ
  pub dev : Option ℕ
  pub gid : ℕ

-- The mode of the new inode: a caller other than root sets no set-id bits, and a directory under a
-- directory gets the set-group-id bit.
unfoldable pub created_mode : ℕ → ℕ → ℕ → ℕ
created_mode uid permission p_mode =
    let mode = if uid == 0 then permission else remove (remove permission s_isuid) s_isgid in
    if contains permission s_ifdir && contains (from_bits_truncate p_mode) s_ifdir
    then insert mode s_isgid
    else mode

-- The link count, the size and the device number of the new inode, by its type.
unfoldable pub created_shape : ℕ → Option Bytes → Option ℕ → DbfsResult (ℕ × ℕ × Option ℕ)
created_shape permission target_path dev =
    if contains permission s_ifsock
      || contains permission s_ifchr
      || contains permission s_ifblk
      || contains permission s_ififo
    then ok (1, 0, dev)
    else if contains permission s_ifdir
    then ok (2, 2, none)
    else if contains permission s_iflnk
    then elim target_path [ none ↦ panic | some t ↦ ok (1, length t, none) ]
    else ok (1, 0, none)

module _ (K : Kv) where
  open K use {Db}

  -- `new_inode.put("data", target_path.unwrap())?`
  abbrev put_target : Bytes → Option Bytes → Tx Db (Unit {0})
  put_target b target_path = do t ← lift (Res.unwrap target_path); put K b k_data t

  -- `if dev.is_some() { new_inode.put("dev", …)?; }`
  abbrev put_dev : Bytes → Option ℕ → Tx Db (Unit {0})
  put_dev b none = pure tt
  put_dev b (some n) = put_int K 4 b k_dev n

  -- The entry of the new inode in its directory, and what the directory says of the caller's rights.
  unfoldable pub create_entry : ℕ → ℕ → Bytes → ℕ → ℕ → DbfsTimeSpec → Tx Db (ℕ × ℕ)
  create_entry new_number dir name uid gid c_time = do
    let p = ino_key dir
    get_bucket K p
    p_uid ← value_int K 4 p k_uid
    p_gid ← value_int K 4 p k_gid
    p_mode ← value_int K 2 p k_mode
    lift (Res.guard (checkout_access p_uid p_gid (bit_and p_mode 0o777) uid gid 0o2) access_error)
    size ← value_int K 8 p k_size
    or_panic (put_int K 8 p k_size (add64 size 1))
    or_panic (put K p (generate_data_key name) (decimal new_number))
    or_panic (put_time K p k_ctime c_time)
    or_panic (put_time K p k_mtime c_time)
    pure (p_gid, p_mode)

  -- The bucket of the new inode.
  unfoldable pub create_inode :
      ℕ → ℕ → ℕ → DbfsTimeSpec → ℕ → Option Bytes → Option ℕ → ℕ → ℕ → Tx Db Made
  create_inode new_number dir uid c_time permission target_path dev gid p_mode = do
    let b = ino_key new_number
    let mode = created_mode uid permission p_mode
    create_bucket K b
    put_int K 2 b k_mode mode
    shape ← lift (created_shape permission target_path dev)
    when (contains permission s_ifdir) (do
      put K b (generate_data_key (codes ".")) (decimal new_number)
      put K b (generate_data_key (codes "..")) (decimal dir))
    put_int K 8 b k_size shape.1
    put_int K 4 b k_hard_links shape.0
    put_int K 4 b k_uid uid
    put_int K 4 b k_gid gid
    put_time K b k_atime c_time
    put_time K b k_mtime c_time
    put_time K b k_ctime c_time
    put_int K 4 b k_block_size slice_size
    when (contains permission s_iflnk) (put_target b target_path)
    put_dev b shape.2
    pure
        (record { mode = mode; hard_link = shape.0; file_size = shape.1; dev = shape.2; gid = gid })

  unfoldable pub create_body :
      ℕ → ℕ → Bytes → ℕ → ℕ → DbfsTimeSpec → ℕ → Option Bytes → Option ℕ → Tx Db Made
  create_body new_number dir name uid gid c_time permission target_path dev = do
    parent ← create_entry new_number dir name uid gid c_time
    create_inode new_number dir uid c_time permission target_path dev
        (creation_gid parent.0 permission gid) parent.1
