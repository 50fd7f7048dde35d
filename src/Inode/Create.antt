-- ===== src/Inode/Create.antt =====
-- What the transaction of `dbfs_common_create` writes, for a regular file.
pub mod Mode
pub mod File
pub mod Lookup
use dbfs.Prelude.{
  ℕ, ◌≡◌, true, false, Option, none, some, Bytes, bit_and, same, same_refl, if◌then◌else◌,
}
use dbfs.Prelude.Res.{ok, err}
use dbfs.Prelude.Words.{add64}
use dbfs.Bytes.{be_bytes, decimal}
use dbfs.Common.Permission.{contains, s_ifdir, s_iflnk}
use dbfs.Common.Error.{access_error}
use dbfs.Common.Time.{DbfsTimeSpec, time_bytes}
use dbfs.Common.Keys.{
  ino_key, generate_data_key, slice_size, k_size, k_mode, k_hard_links, k_uid, k_gid, k_block_size,
  k_atime, k_mtime, k_ctime,
}
use dbfs.Access.{checkout_access}
use dbfs.Kv.{Kv}
use dbfs.Store.Laws.{get_bucket_at, value_int_at, put_step, create_bucket_step}
use dbfs.Inode.Body.Create.{create_entry, create_inode, created_mode, created_shape}
use dbfs.Inode.Row.{Row, IsRow, Holds}

-- The row of a new regular file.
abbrev pub file_row : ℕ → ℕ → ℕ → DbfsTimeSpec → Row
file_row mode uid gid t = record {
  size = 0;
  mode = mode;
  hard_links = 1;
  uid = uid;
  gid = gid;
  block_size = 32768;
  atime = t;
  mtime = t;
  ctime = t;
}

module _ (K : Kv) where
  open K use {Db}

  -- The contents with the entry `name` for `number` added to the directory `dir`.
  abbrev pub entered : ℕ → ℕ → Bytes → ℕ → DbfsTimeSpec → Db → Db
  entered number dir name size c_time d =
      let p = ino_key dir in
      K.with_kv p k_mtime (time_bytes c_time) (
        K.with_kv p k_ctime (time_bytes c_time) (
          K.with_kv p (generate_data_key name) (decimal number)
            (K.with_kv p k_size (be_bytes 8 size) d)))

module _ (K : Kv) (number dir : ℕ) (name : Bytes) (uid gid : ℕ) (t : DbfsTimeSpec) (d : K.Db)
    (r : Row) where
  pub create_entry_lem :
      Holds K dir r d
      → IsRow r
      → checkout_access r.uid r.gid (bit_and r.mode 0o777) uid gid 2 ≡ true
      → create_entry K number dir name uid gid t d
        ≡ ok ((r.gid, r.mode), entered K number dir name (add64 r.size 1) t d)
  unfolding create_entry
  create_entry_lem h f may =
      let p = ino_key dir in
      rw
        (
          get_bucket_at K p d h.there,
          value_int_at K 4 r.uid p k_uid d h.uid_at f.uid_fits,
          value_int_at K 4 r.gid p k_gid d h.gid_at f.gid_fits,
          value_int_at K 2 r.mode p k_mode d h.mode_at f.mode_fits,
          may,
          value_int_at K 8 r.size p k_size d h.size_at f.size_fits,
        )
        (simp (put_step K, K.has-with_kv, h.there))

  pub create_entry_refused :
      Holds K dir r d
      → IsRow r
      → checkout_access r.uid r.gid (bit_and r.mode 0o777) uid gid 2 ≡ false
      → create_entry K number dir name uid gid t d ≡ err access_error
  unfolding create_entry
  create_entry_refused h f denied =
      let p = ino_key dir in
      rw (
        get_bucket_at K p d h.there,
        value_int_at K 4 r.uid p k_uid d h.uid_at f.uid_fits,
        value_int_at K 4 r.gid p k_gid d h.gid_at f.gid_fits,
        value_int_at K 2 r.mode p k_mode d h.mode_at f.mode_fits,
        denied,
      )

module _ (K : Kv) where
  open K use {Db}

  -- The contents with a new bucket that holds the row.
  abbrev pub filled : ℕ → Row → Db → Db
  filled number r d =
      let b = ino_key number in
      K.with_kv b k_block_size (be_bytes 4 r.block_size) (
        K.with_kv b k_ctime (time_bytes r.ctime) (
          K.with_kv b k_mtime (time_bytes r.mtime) (
            K.with_kv b k_atime (time_bytes r.atime) (
              K.with_kv b k_gid (be_bytes 4 r.gid) (
                K.with_kv b k_uid (be_bytes 4 r.uid) (
                  K.with_kv b k_hard_links (be_bytes 4 r.hard_links) (
                    K.with_kv b k_size (be_bytes 8 r.size)
                      (K.with_kv b k_mode (be_bytes 2 r.mode) (K.with_bucket b d)))))))))

module _ (K : Kv) (number dir uid : ℕ) (t : DbfsTimeSpec) (permission : ℕ) (target : Option Bytes)
    (dev : Option ℕ) (gid p_mode : ℕ) (d : K.Db) where
  -- The bucket of a new regular file.
  pub create_inode_file :
      K.has (ino_key number) d ≡ false
      → contains permission s_ifdir ≡ false
      → contains permission s_iflnk ≡ false
      → created_shape permission target dev ≡ ok (1, 0, none)
      → create_inode K number dir uid t permission target dev gid p_mode d
        ≡ ok (
          record {
            mode = created_mode uid permission p_mode;
            hard_link = 1;
            file_size = 0;
            dev = none;
            gid = gid;
          },
          filled K number (file_row (created_mode uid permission p_mode) uid gid t) d,
        )
  unfolding create_inode slice_size
  create_inode_file absent no_dir no_link shape = simp (
    create_bucket_step K,
    put_step K,
    absent,
    K.has-with_kv,
    K.has-with_bucket,
    same_refl,
    no_dir,
    no_link,
    shape,
  )

module _ (K : Kv) (number : ℕ) where
  pub Holds-filled : (r : Row) (d : K.Db) → Holds K number r (filled K number r d)
  Holds-filled r d = record {
    there = simp (K.has-with_kv, K.has-with_bucket, same_refl);
    size_at = simp (K.get_kv-with_kv, same_refl);
    mode_at = simp (K.get_kv-with_kv, same_refl);
    hard_links_at = simp (K.get_kv-with_kv, same_refl);
    uid_at = simp (K.get_kv-with_kv, same_refl);
    gid_at = simp (K.get_kv-with_kv, same_refl);
    block_size_at = simp (K.get_kv-with_kv, same_refl);
    atime_at = simp (K.get_kv-with_kv, same_refl);
    mtime_at = simp (K.get_kv-with_kv, same_refl);
    ctime_at = simp (K.get_kv-with_kv, same_refl);
  }

  -- The other buckets are as before.
  pub filled-other :
      (r : Row) (d : K.Db) (b k : Bytes)
      → same (ino_key number) b ≡ false
      → (K.get_kv b k (filled K number r d) ≡ K.get_kv b k d)
        × (K.has b (filled K number r d) ≡ K.has b d)
  filled-other r d b k ne = (
    simp (K.get_kv-with_kv, K.get_kv-with_bucket, ne),
    simp (K.has-with_kv, K.has-with_bucket, ne),
  )

module _ (K : Kv) (number : ℕ) (t : DbfsTimeSpec) where
  pub Holds-entered :
      (dir : ℕ) (name : Bytes) (size : ℕ) (d : K.Db) (r : Row)
      → Holds K dir r d
      → Holds K dir
          (record r { size = size; mtime = t; ctime = t })
          (entered K number dir name size t d)
  Holds-entered dir name size d r h = record {
    there = simp (K.has-with_kv, h.there);
    size_at = simp (K.get_kv-with_kv, same_refl);
    mode_at = simp (K.get_kv-with_kv, same_refl, h.mode_at);
    hard_links_at = simp (K.get_kv-with_kv, same_refl, h.hard_links_at);
    uid_at = simp (K.get_kv-with_kv, same_refl, h.uid_at);
    gid_at = simp (K.get_kv-with_kv, same_refl, h.gid_at);
    block_size_at = simp (K.get_kv-with_kv, same_refl, h.block_size_at);
    atime_at = simp (K.get_kv-with_kv, same_refl, h.atime_at);
    mtime_at = simp (K.get_kv-with_kv, same_refl);
    ctime_at = simp (K.get_kv-with_kv, same_refl);
  }

  -- The entries of the directory: the new one, and the others as before.
  pub entered-entry :
      (dir : ℕ) (name other : Bytes) (size : ℕ) (d : K.Db)
      → K.get_kv (ino_key dir) (generate_data_key other) (entered K number dir name size t d) ≡ (
          if same name other
          then some (decimal number)
          else K.get_kv (ino_key dir) (generate_data_key other) d)
  entered-entry dir name other size d = simp (K.get_kv-with_kv, same_refl)

  pub entered-other :
      (dir : ℕ) (name : Bytes) (size : ℕ) (d : K.Db) (b k : Bytes)
      → same (ino_key dir) b ≡ false
      → (K.get_kv b k (entered K number dir name size t d) ≡ K.get_kv b k d)
        × (K.has b (entered K number dir name size t d) ≡ K.has b d)
  entered-other dir name size d b k ne = (simp (K.get_kv-with_kv, ne), simp (K.has-with_kv))
