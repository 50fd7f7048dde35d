-- ===== src/Inode/Body/Truncate.antt =====
-- `dbfs_common_truncate` and `dbfs_common_fallocate` of src/inode.rs: their transactions.
use dbfs.Prelude.{
  ℕ, zero, suc, ◌+◌, ◌-◌, ◌*◌, ◌/◌, ◌%◌, Bytes, none, some, not, bit_and, ltb, leb, length, take,
  drop, replicate, ◌++◌, ◌==◌, if◌then◌else◌,
}
use dbfs.Prelude.Res
use dbfs.Prelude.Res.{ok, panic}
use dbfs.Prelude.Words.{add64}
use dbfs.Common.Error.{DbfsResult, access_error, no_space}
use dbfs.Common.Time.{DbfsTimeSpec}
use dbfs.Common.Keys.{
  ino_key, generate_data_key_with_number, slice_size, super_blk, k_disk_size, k_size, k_mode, k_uid,
  k_gid, k_mtime, k_ctime,
}
use dbfs.Access.{checkout_access, access_w_ok, clear_suid_sgid}
use dbfs.Common.Permission.{from_bits_truncate}
use dbfs.Kv.{Kv}
use dbfs.Store.Tx.{
  Tx, pure, lift, or_panic, when, ◌>>=◌, ◌>>◌, get_bucket, get_kv, value_int, put, put_int,
  put_time, delete,
}

-- `for i in offset..SLICE_SIZE { value[i] = 0 }`: an index at or past the end of the value panics.
unfoldable pub zero_from : ℕ → Bytes → DbfsResult Bytes
zero_from offset value =
    if leb slice_size (length value)
    then ok (take offset value ++ replicate (slice_size - offset) 0 ++ drop slice_size value)
    else panic

module _ (K : Kv) where
  open K use {Db}

  -- `disk_size` goes down by the growth of a file, if there is room for it.
  unfoldable pub reserve : ℕ → Tx Db (Unit {0})
  reserve gap = do
    or_panic (get_bucket K super_blk)
    disk_size ← value_int K 8 super_blk k_disk_size
    lift (Res.guard (not (ltb disk_size gap)) no_space)
    put_int K 8 super_blk k_disk_size (disk_size - gap)

  -- One slice is deleted, if it is there.
  unfoldable pub free_slice : Bytes → ℕ → Tx Db (Unit {0})
  free_slice b i = do
    found ← get_kv K b (generate_data_key_with_number i)
    elim found [ none ↦ pure tt | some v ↦ delete K b (generate_data_key_with_number i) ]

  -- `for i in first..first + count`
  unfoldable pub free_slices : Bytes → ℕ → ℕ → Tx Db (Unit {0})
  free_slices b zero first = pure tt
  free_slices b (suc count) first = do free_slice b first; free_slices b count (first + 1)

  -- The slice that the new end lies in is zero from there on.
  unfoldable pub clear_tail : Bytes → ℕ → ℕ → Tx Db (Unit {0})
  clear_tail b start offset = do
    found ← get_kv K b (generate_data_key_with_number start)
    elim found [
      | none ↦ pure tt
      | some v ↦ (do
        v' ← lift (zero_from offset v)
        or_panic (put K b (generate_data_key_with_number start) v'))
    ]

  -- The space of the slices from `start` to `current_block` is given back.
  unfoldable pub give_back : ℕ → Tx Db (Unit {0})
  give_back additional_size = do
    or_panic (get_bucket K super_blk)
    disk_size ← value_int K 8 super_blk k_disk_size
    put_int K 8 super_blk k_disk_size (add64 disk_size additional_size)

  -- The slices and the free space after a change of size: a file that grows into a new slice takes
  -- space and gets no slices; any other loses the slices behind its new end.
  unfoldable pub resize : Bytes → ℕ → ℕ → ℕ → ℕ → Tx Db (Unit {0})
  resize b start offset current_block gap = if ltb current_block start then reserve gap else do
    free_slices b (current_block - start) (start + 1)
    clear_tail b start offset
    give_back ((current_block - start) * slice_size)

  -- `dbfs_common_truncate`, behind the permission check; `current_size` and `perm` are the inode's.
  unfoldable pub truncate_body : ℕ → DbfsTimeSpec → ℕ → ℕ → ℕ → Tx Db (Unit {0})
  truncate_body ino ctime f_size current_size perm = do
    let b = ino_key ino
    or_panic (get_bucket K b)
    let start = f_size / slice_size
    let offset = f_size % slice_size
    let current_block = current_size / slice_size
    resize b start offset current_block (f_size - current_size)
    put_int K 8 b k_size f_size
    put_time K b k_ctime ctime
    put_time K b k_mtime ctime
    put_int K 2 b k_mode (clear_suid_sgid (from_bits_truncate perm))

  -- `dbfs_common_fallocate`
  unfoldable pub fallocate_body : ℕ → ℕ → ℕ → ℕ → ℕ → ℕ → DbfsTimeSpec → Tx Db (Unit {0})
  fallocate_body r_uid r_gid ino offset size mode ctime = do
    let b = ino_key ino
    or_panic (get_bucket K b)
    uid ← value_int K 4 b k_uid
    gid ← value_int K 4 b k_gid
    perm ← value_int K 2 b k_mode
    i_size ← value_int K 8 b k_size
    lift (Res.guard (checkout_access uid gid perm r_uid r_gid access_w_ok) access_error)
    let f_size = add64 offset size
    when (ltb (i_size / slice_size) (f_size / slice_size)) (reserve (f_size - i_size))
    when (bit_and mode 0x01 == 0) (do
      put_time K b k_ctime ctime
      put_time K b k_mtime ctime
      when (ltb i_size f_size) (put_int K 8 b k_size f_size))
