-- ===== src/Inode/Unlink.antt =====
-- What the transaction of `dbfs_common_unlink` leaves: a directory without an entry, and an inode
-- with one link less or none.
pub mod Whole
use dbfs.Prelude.{
  ℕ, ◌^◌, ◌<◌, ◌≡◌, ◌≢◌, true, false, none, some, Bytes, bit_and, same, same_refl, same-ne, arith,
  ◌==◌, if◌then◌else◌,
}
use dbfs.Prelude.Res.{ok}
use dbfs.Prelude.Words.{sub64, sub32}
use dbfs.Bytes.{be_bytes, decimal}
use dbfs.Bytes.BigEndian.{int_of-be_bytes, be_bytes-injective}
use dbfs.Common.Time.{DbfsTimeSpec, time_bytes}
use dbfs.Common.Keys.{
  ino_key, generate_data_key, k_size, k_mode, k_hard_links, k_uid, k_gid, k_mtime, k_ctime,
}
use dbfs.Access.{checkout_access}
use dbfs.Kv.{Kv}
use dbfs.Store.Laws.{
  get_bucket_at, value_at, value_int_at, value_int_step, put_step, delete_step, delete_bucket_step,
}
use dbfs.Inode.Body.Entry.{sticky_bars, unlink_target, drop_link, unlink_body}
use dbfs.Inode.Row.{Row, IsRow, Holds}
use dbfs.Inode.Create.Lookup.{entry_number-decimal}

pub ino_key-ne : (a b : ℕ) → a < 2 ^ 64 → b < 2 ^ 64 → a ≢ b → same (ino_key a) (ino_key b) ≡ false
unfolding ino_key
ino_key-ne a b ha hb ne =
    same-ne (be_bytes 8 a) (be_bytes 8 b) (λ e. ne (be_bytes-injective 8 a b ha hb e))

module _ (K : Kv) where
  open K use {Db}

  -- The contents with the entry `name` taken from the directory `dir`.
  abbrev pub left : ℕ → Bytes → ℕ → DbfsTimeSpec → Db → Db
  left dir name size t d =
      let p = ino_key dir in
      K.with_kv p k_mtime (time_bytes t) (
        K.with_kv p k_ctime (time_bytes t)
          (K.with_kv p k_size (be_bytes 8 size) (K.without_kv p (generate_data_key name) d)))

  module _ (dir : ℕ) (name : Bytes) (size : ℕ) (t : DbfsTimeSpec) (d : Db) where
    pub Holds-left :
        (r : Row)
        → Holds K dir r d
        → Holds K dir (record r { size = size; mtime = t; ctime = t }) (left dir name size t d)
    Holds-left r h = record {
      there = simp (K.has-with_kv, K.has-without_kv, h.there);
      size_at = simp (K.get_kv-with_kv, same_refl);
      mode_at = simp (K.get_kv-with_kv, K.get_kv-without_kv, same_refl, h.mode_at);
      hard_links_at = simp (K.get_kv-with_kv, K.get_kv-without_kv, same_refl, h.hard_links_at);
      uid_at = simp (K.get_kv-with_kv, K.get_kv-without_kv, same_refl, h.uid_at);
      gid_at = simp (K.get_kv-with_kv, K.get_kv-without_kv, same_refl, h.gid_at);
      block_size_at = simp (K.get_kv-with_kv, K.get_kv-without_kv, same_refl, h.block_size_at);
      atime_at = simp (K.get_kv-with_kv, K.get_kv-without_kv, same_refl, h.atime_at);
      mtime_at = simp (K.get_kv-with_kv, same_refl);
      ctime_at = simp (K.get_kv-with_kv, same_refl);
    }

    pub left-entry :
        (other : Bytes)
        → K.get_kv (ino_key dir) (generate_data_key other) (left dir name size t d)
          ≡ (if same name other then none else K.get_kv (ino_key dir) (generate_data_key other) d)
    left-entry other = simp (K.get_kv-with_kv, K.get_kv-without_kv, same_refl)

    pub left-other :
        (b k : Bytes)
        → same (ino_key dir) b ≡ false
        → (K.get_kv b k (left dir name size t d) ≡ K.get_kv b k d)
          × (K.has b (left dir name size t d) ≡ K.has b d)
    left-other b k ne =
        (simp (K.get_kv-with_kv, K.get_kv-without_kv, ne), simp (K.has-with_kv, K.has-without_kv))

module _ (K : Kv) (uid gid dir : ℕ) (name : Bytes) (t : DbfsTimeSpec) (d : K.Db) (r : Row) (n : ℕ)
    (q : Row) where
  pub unlink_body_lem :
      Holds K dir r d
      → IsRow r
      → Holds K n q d
      → IsRow q
      → checkout_access r.uid r.gid (bit_and r.mode 0o777) uid gid 2 ≡ true
      → sticky_bars r.mode uid r.uid q.uid ≡ false
      → K.get_kv (ino_key dir) (generate_data_key name) d ≡ some (decimal n)
      → n < 2 ^ 64
      → unlink_body K uid gid dir name none t d
        ≡ drop_link K n t (left K dir name (sub64 r.size 1) t d)
  unfolding unlink_body unlink_target
  unlink_body_lem h f hq fq may free entry fits =
      let p = ino_key dir in
      rw
        (
          get_bucket_at K p d h.there,
          value_at K p (generate_data_key name) d entry,
          value_int_at K 4 r.uid p k_uid d h.uid_at f.uid_fits,
          value_int_at K 4 r.gid p k_gid d h.gid_at f.gid_fits,
          value_int_at K 2 r.mode p k_mode d h.mode_at f.mode_fits,
          may,
          entry_number-decimal n fits,
          get_bucket_at K (ino_key n) d hq.there,
          value_int_at K 4 q.uid (ino_key n) k_uid d hq.uid_at fq.uid_fits,
          free,
        )
        (simp (
          delete_step K,
          entry,
          value_int_step K,
          K.get_kv-without_kv,
          same_refl,
          h.size_at,
          int_of-be_bytes 8 r.size f.size_fits,
          put_step K,
          K.has-with_kv,
          K.has-without_kv,
          h.there,
        ))

-- The last link takes the inode with it; any other leaves it with one link less.
module _ (K : Kv) (n : ℕ) (t : DbfsTimeSpec) (d : K.Db) (q : Row) where
  pub drop_link-last :
      Holds K n q d → q.hard_links ≡ 1 → drop_link K n t d ≡ ok (tt, K.without_bucket (ino_key n) d)
  unfolding drop_link
  drop_link-last h last =
      rw
        (
          value_int_at K 4 q.hard_links (ino_key n) k_hard_links d h.hard_links_at
              (omega (arith, last)),
          last,
        )
        (simp (delete_bucket_step K, h.there))

  abbrev pub one_less : K.Db
  one_less =
      K.with_kv (ino_key n) k_ctime (time_bytes t)
        (K.with_kv (ino_key n) k_hard_links (be_bytes 4 (sub32 q.hard_links 1)) d)

  pub drop_link-more :
      Holds K n q d → IsRow q → (q.hard_links == 1) ≡ false → drop_link K n t d ≡ ok (tt, one_less)
  unfolding drop_link
  drop_link-more h f more =
      rw
        (
          value_int_at K 4 q.hard_links (ino_key n) k_hard_links d h.hard_links_at
              f.hard_links_fits,
          more,
        )
        (simp (put_step K, K.has-with_kv, h.there))

  pub Holds-one_less :
      Holds K n q d → Holds K n (record q { hard_links = sub32 q.hard_links 1; ctime = t }) one_less
  Holds-one_less h = record {
    there = simp (K.has-with_kv, h.there);
    size_at = simp (K.get_kv-with_kv, same_refl, h.size_at);
    mode_at = simp (K.get_kv-with_kv, same_refl, h.mode_at);
    hard_links_at = simp (K.get_kv-with_kv, same_refl);
    uid_at = simp (K.get_kv-with_kv, same_refl, h.uid_at);
    gid_at = simp (K.get_kv-with_kv, same_refl, h.gid_at);
    block_size_at = simp (K.get_kv-with_kv, same_refl, h.block_size_at);
    atime_at = simp (K.get_kv-with_kv, same_refl, h.atime_at);
    mtime_at = simp (K.get_kv-with_kv, same_refl, h.mtime_at);
    ctime_at = simp (K.get_kv-with_kv, same_refl);
  }

  pub one_less-other :
      (b k : Bytes)
      → same (ino_key n) b ≡ false
      → (K.get_kv b k one_less ≡ K.get_kv b k d) × (K.has b one_less ≡ K.has b d)
  one_less-other b k ne = (simp (K.get_kv-with_kv, ne), simp (K.has-with_kv))
