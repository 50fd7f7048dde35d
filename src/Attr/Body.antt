-- ===== src/Attr/Body.antt =====
-- The transactions of src/attr.rs.
use dbfs.Prelude.{
  ℕ, Bytes, Option, none, some, bit_and, length, drop, ◌++◌, ltb, ◌==◌, if◌then◌else◌,
}
use dbfs.Prelude.Res
use dbfs.Prelude.Res.{ok, err}
use dbfs.Common.Error.{DbfsResult, no_data, range_error}
use dbfs.Common.Time.{DbfsTimeSpec}
use dbfs.Common.Keys.{ino_key, k_mode, k_uid, k_gid, k_atime, k_mtime, k_ctime}
use dbfs.Access.{access_r_ok, access_w_ok, xattr_access_check}
use dbfs.Kv.{Kv}
use dbfs.Store.Tx.{
  Tx, pure, lift, ◌>>=◌, ◌>>◌, get_bucket, get_kv, value_int, put, put_int, put_time, delete,
}

-- A value is copied over the front of the buffer, where it fits; an empty buffer asks for its length.
unfoldable pub copy_value : Bytes → Bytes → DbfsResult (ℕ × Bytes)
copy_value value buf =
    if length buf == 0
    then ok (length value, buf)
    else if ltb (length buf) (length value)
    then err range_error
    else ok (length value, value ++ drop (length value) buf)

module _ (K : Kv) where
  open K use {Db}

  -- The part that the operations on extended attributes share.
  unfoldable pub checked_bucket : ℕ → Bytes → ℕ → ℕ → ℕ → Tx Db (Unit {0})
  checked_bucket access_mask key r_uid r_gid ino = do
    let b = ino_key ino
    get_bucket K b
    uid ← value_int K 4 b k_uid
    gid ← value_int K 4 b k_gid
    mode ← value_int K 2 b k_mode
    lift (xattr_access_check key access_mask r_uid r_gid uid gid (bit_and mode 0o777))

  -- `dbfs_common_setxattr`. It asks for the right to read.
  unfoldable pub setxattr_body : ℕ → ℕ → ℕ → Bytes → Bytes → DbfsTimeSpec → Tx Db (Unit {0})
  setxattr_body r_uid r_gid ino key value ctime = do
    checked_bucket access_r_ok key r_uid r_gid ino
    put K (ino_key ino) key value
    put_time K (ino_key ino) k_ctime ctime

  -- `dbfs_common_getxattr`: the length of the value, and the buffer.
  unfoldable pub getxattr_body : ℕ → ℕ → ℕ → Bytes → Bytes → Tx Db (ℕ × Bytes)
  getxattr_body r_uid r_gid ino key buf = do
    checked_bucket access_r_ok key r_uid r_gid ino
    found ← get_kv K (ino_key ino) key
    v ← lift (Res.ok_or found no_data)
    lift (copy_value v buf)

  -- `dbfs_common_removexattr`
  unfoldable pub removexattr_body : ℕ → ℕ → ℕ → Bytes → DbfsTimeSpec → Tx Db (Unit {0})
  removexattr_body r_uid r_gid ino key ctime = do
    checked_bucket access_w_ok key r_uid r_gid ino
    delete K (ino_key ino) key
    put_time K (ino_key ino) k_ctime ctime

  unfoldable pub chmod_body : ℕ → ℕ → DbfsTimeSpec → Tx Db (Unit {0})
  chmod_body ino i_mode ctime = do
    get_bucket K (ino_key ino)
    put_int K 2 (ino_key ino) k_mode i_mode
    put_time K (ino_key ino) k_ctime ctime

  unfoldable pub chown_body : ℕ → ℕ → ℕ → ℕ → DbfsTimeSpec → Tx Db (Unit {0})
  chown_body ino uid gid perm c_time = do
    let b = ino_key ino
    get_bucket K b
    put_int K 4 b k_uid uid
    put_int K 4 b k_gid gid
    put_int K 2 b k_mode perm
    put_time K b k_ctime c_time

  -- `if let Some(time) = time { bucket.put(key, …)?; }`
  abbrev pub put_given : Bytes → Bytes → Option DbfsTimeSpec → Tx Db (Unit {0})
  put_given b key none = pure tt
  put_given b key (some t) = put_time K b key t

  unfoldable pub utimens_body :
      ℕ → Option DbfsTimeSpec → Option DbfsTimeSpec → DbfsTimeSpec → Tx Db (Unit {0})
  utimens_body ino atime mtime c_time = do
    let b = ino_key ino
    get_bucket K b
    put_given b k_atime atime
    put_given b k_mtime mtime
    put_time K b k_ctime c_time
