-- ===== src/Inode/Body/Rename.antt =====
-- `dbfs_common_rename` of src/inode.rs: its two reading transactions, and the two that write, for an
-- exchange and for a move.
use dbfs.Prelude.{ℕ, Bytes, Option, none, some, not, ◌&&◌, bit_and, codes, ◌==◌, if◌then◌else◌}
use dbfs.Prelude.Res
use dbfs.Prelude.Words.{add64, sub64}
use dbfs.Bytes.{decimal}
use dbfs.Common.Error.{access_error, not_found}
use dbfs.Common.Permission.{from_bits_truncate, contains, s_isvtx, s_ifdir}
use dbfs.Common.Time.{DbfsTimeSpec}
use dbfs.Common.Keys.{
  ino_key, generate_data_key, k_size, k_mode, k_hard_links, k_uid, k_gid, k_mtime, k_ctime,
}
use dbfs.Access.{checkout_access, access_w_ok}
use dbfs.Inode.Body.Entry.{sticky_bars}
use dbfs.Kv.{Kv}
use dbfs.Store.Tx.{
  Tx, pure, lift, or_panic, when, ◌>>=◌, ◌>>◌, get_bucket, delete_bucket, get_kv, value_int, put,
  put_int, put_time, delete, entry_number,
}

-- The inode that is moved.
pub record Moved : Type 0 where
  pub number : ℕ
  pub uid : ℕ
  pub gid : ℕ
  pub perm : ℕ

-- The inode that the new name stands for.
pub record Target : Type 0 where
  pub number : ℕ
  pub perm : ℕ
  pub size : ℕ

module _ (K : Kv) where
  open K use {Db}

  -- The first transaction: the entry under its old name.
  unfoldable pub rename_old : ℕ → ℕ → ℕ → Bytes → Tx Db Moved
  rename_old r_uid r_gid old_dir old_name = do
    let p = ino_key old_dir
    get_bucket K p
    found ← get_kv K p (generate_data_key old_name)
    v ← lift (Res.ok_or found not_found)
    dir_uid ← value_int K 4 p k_uid
    dir_gid ← value_int K 4 p k_gid
    dir_perm ← value_int K 2 p k_mode
    lift (
        Res.guard (checkout_access dir_uid dir_gid (bit_and dir_perm 0o777) r_uid r_gid access_w_ok)
          access_error)
    number ← lift (entry_number v)
    let b = ino_key number
    or_panic (get_bucket K b)
    uid ← value_int K 4 b k_uid
    lift (Res.guard (not (sticky_bars dir_perm r_uid dir_uid uid)) access_error)
    gid ← value_int K 4 b k_gid
    perm ← value_int K 2 b k_mode
    pure (record { number = number; uid = uid; gid = gid; perm = perm })

  -- What the new name stands for, looked at only in a sticky directory.
  unfoldable pub rename_target : ℕ → ℕ → ℕ → Option Bytes → Tx Db (Option Target)
  rename_target r_uid dir_uid dir_perm none = pure none
  rename_target r_uid dir_uid dir_perm (some v) =
      if contains (from_bits_truncate dir_perm) s_isvtx
      then (do
        number ← lift (entry_number v)
        let b = ino_key number
        or_panic (get_bucket K b)
        uid ← value_int K 4 b k_uid
        lift (
            Res.guard (not (not (r_uid == 0) && not (r_uid == dir_uid) && not (r_uid == uid)))
              access_error)
        perm ← value_int K 2 b k_mode
        size ← value_int K 8 b k_size
        pure (some (record { number = number; perm = perm; size = size })))
      else pure none

  -- The second transaction: the new directory.
  unfoldable pub rename_new : ℕ → ℕ → ℕ → Bytes → Tx Db (Option Target)
  rename_new r_uid r_gid new_dir new_name = do
    let p = ino_key new_dir
    get_bucket K p
    dir_uid ← value_int K 4 p k_uid
    dir_gid ← value_int K 4 p k_gid
    dir_perm ← value_int K 2 p k_mode
    lift (
        Res.guard (checkout_access dir_uid dir_gid (bit_and dir_perm 0o777) r_uid r_gid access_w_ok)
          access_error)
    found ← get_kv K p (generate_data_key new_name)
    rename_target r_uid dir_uid dir_perm found

  -- The atomic exchange. The moved directory's own entry `.` is given the new parent.
  unfoldable pub exchange_body :
      ℕ → Bytes → ℕ → Bytes → Moved → Target → DbfsTimeSpec → Tx Db (Unit {0})
  exchange_body old_dir old_name new_dir new_name old target ctime = do
    let p = ino_key old_dir
    let q = ino_key new_dir
    get_bucket K p
    get_bucket K q
    put K q (generate_data_key new_name) (decimal old.number)
    put K p (generate_data_key old_name) (decimal target.number)
    put_time K p k_ctime ctime
    put_time K p k_mtime ctime
    put_time K q k_ctime ctime
    put_time K q k_mtime ctime
    let b = ino_key old.number
    get_bucket K b
    put_time K b k_ctime ctime
    let c = ino_key target.number
    get_bucket K c
    put_time K c k_ctime ctime
    when (contains (from_bits_truncate old.perm) s_ifdir)
        (put K b (generate_data_key (codes ".")) (decimal new_dir))
    when (contains (from_bits_truncate target.perm) s_ifdir)
        (put K c (generate_data_key (codes "..")) (decimal old_dir))

  -- The inode that is overwritten loses a link; its count is read as eight bytes.
  unfoldable pub drop_target : Target → DbfsTimeSpec → Tx Db (Unit {0})
  drop_target target ctime =
      let c = ino_key target.number in
      if contains (from_bits_truncate target.perm) s_ifdir then delete_bucket K c else do
        get_bucket K c
        hardlink ← value_int K 8 c k_hard_links
        let left = sub64 hardlink 1
        if left == 0
            then delete_bucket K c
            else do put_int K 8 c k_hard_links left; put_time K c k_ctime ctime

  -- The size of the new directory, with the overwritten entry taken off.
  unfoldable pub replace_target : Bytes → Bytes → Option Target → DbfsTimeSpec → ℕ → Tx Db ℕ
  replace_target q new_name none ctime new_dir_size = pure new_dir_size
  replace_target q new_name (some target) ctime new_dir_size = do
    delete K q (generate_data_key new_name)
    drop_target target ctime
    pure (sub64 new_dir_size 1)

  -- The move. The two directories may be one.
  unfoldable pub move_body :
      ℕ → Bytes → ℕ → Bytes → Moved → Option Target → DbfsTimeSpec → Tx Db (Unit {0})
  move_body old_dir old_name new_dir new_name old target ctime = do
    let p = ino_key old_dir
    let q = ino_key new_dir
    get_bucket K p
    get_bucket K q
    found_size ← value_int K 8 q k_size
    new_dir_size ← replace_target q new_name target ctime found_size
    delete K p (generate_data_key old_name)
    old_dir_size ← value_int K 8 p k_size
    put_int K 8 p k_size (sub64 old_dir_size 1)
    put K q (generate_data_key new_name) (decimal old.number)
    put_int K 8 q k_size (if old_dir == new_dir then new_dir_size else add64 new_dir_size 1)
    put_time K p k_ctime ctime
    put_time K p k_mtime ctime
    put_time K q k_ctime ctime
    put_time K q k_mtime ctime
    let b = ino_key old.number
    get_bucket K b
    put_time K b k_ctime ctime
    when (contains (from_bits_truncate old.perm) s_ifdir)
        (put K b (generate_data_key (codes "..")) (decimal new_dir))
