-- ===== src/Store/Laws.antt =====
-- The steps of a transaction by the laws of the database, as equations for simp.
use dbfs.Prelude.{ℕ, ◌^◌, ◌<◌, not, true, Option, none, some, Bytes, ◌≡◌, if◌then◌else◌, arith}
use dbfs.Prelude.Res.{ok, err, panic}
use dbfs.Bytes.{be_bytes, int_of}
use dbfs.Bytes.BigEndian.{int_of-be_bytes}
use dbfs.Common.Error.{DbfsError, DbfsResult, no_data, file_exists}
use dbfs.Common.Time.{DbfsTimeSpec, time_bytes}
use dbfs.Common.Time.RoundTrip.{IsTime, time_of-time_bytes}
use dbfs.Kv.{Kv, is_some}
use dbfs.Store.Tx.{
  no_bucket, get_bucket, create_bucket, delete_bucket, put, delete, get_kv, value, value_int,
  value_time,
}

module _ (K : Kv) where
  open K use {Db}

  pub get_bucket_step :
      (b : Bytes) (d : Db) → get_bucket K b d ≡ (if K.has b d then ok (tt, d) else err no_data)
  unfolding get_bucket
  get_bucket_step b d = rw (K.get_bucket_law b d, get_bucket) (ground arith)

  pub no_bucket_step : (b : Bytes) (d : Db) → no_bucket K b d ≡ ok (not (K.has b d), d)
  unfolding no_bucket
  no_bucket_step b d = rw (K.get_bucket_law b d) (ground arith)

  pub create_bucket_step :
      (b : Bytes) (d : Db)
      → create_bucket K b d ≡ (if K.has b d then err file_exists else ok (tt, K.with_bucket b d))
  unfolding create_bucket
  create_bucket_step b d = rw (K.create_bucket_law b d) (ground arith)

  pub delete_bucket_step :
      (b : Bytes) (d : Db)
      → delete_bucket K b d ≡ (if K.has b d then ok (tt, K.without_bucket b d) else err no_data)
  unfolding delete_bucket
  delete_bucket_step b d = rw (K.delete_bucket_law b d) (ground arith)

  pub put_step :
      (b k v : Bytes) (d : Db)
      → put K b k v d ≡ (if K.has b d then ok (tt, K.with_kv b k v d) else err no_data)
  unfolding put
  put_step b k v d = rw (K.put_law b k v d) (ground arith)

  pub delete_step :
      (b k : Bytes) (d : Db)
      → delete K b k d
        ≡ (if is_some (K.get_kv b k d) then ok (tt, K.without_kv b k d) else err no_data)
  unfolding delete
  delete_step b k d = rw (K.delete_law b k d) (ground arith)

  pub value_at :
      (b k : Bytes) (d : Db) {v : Bytes} → K.get_kv b k d ≡ some v → value K b k d ≡ ok (v, d)
  unfolding value get_kv
  value_at b k d h = rw h

  -- An integer that was stored with its width is read back.
  pub value_int_at :
      (w n : ℕ) (b k : Bytes) (d : Db)
      → K.get_kv b k d ≡ some (be_bytes w n)
      → n < 256 ^ w
      → value_int K w b k d ≡ ok (n, d)
  unfolding value_int
  value_int_at w n b k d h fits = rw (value_at b k d h, int_of-be_bytes {E = DbfsError} w n fits)

  pub value_time_at :
      (t : DbfsTimeSpec) (b k : Bytes) (d : Db)
      → K.get_kv b k d ≡ some (time_bytes t)
      → IsTime t
      → value_time K b k d ≡ ok (t, d)
  unfolding value_time
  value_time_at t b k d h fits = rw (value_at b k d h, time_of-time_bytes t fits)

  -- After a successful search for a bucket or a successful write.
  pub get_bucket_at : (b : Bytes) (d : Db) → K.has b d ≡ true → get_bucket K b d ≡ ok (tt, d)
  get_bucket_at b d h = rw (get_bucket_step b d, h)

  pub put_at :
      (b k v : Bytes) (d : Db) → K.has b d ≡ true → put K b k v d ≡ ok (tt, K.with_kv b k v d)
  put_at b k v d h = rw (put_step b k v d, h)

  -- What a read of an integer makes of what it finds.
  abbrev pub with_db : {A : Type 0} → Db → DbfsResult A → DbfsResult (A × Db)
  with_db d (ok a) = ok (a, d)
  with_db d (err e) = err e
  with_db d panic = panic

  abbrev pub int_found : ℕ → Db → Option Bytes → DbfsResult (ℕ × Db)
  int_found w d none = panic
  int_found w d (some v) = with_db d (int_of w v)

  pub value_int_step :
      (w : ℕ) (b k : Bytes) (d : Db) → value_int K w b k d ≡ int_found w d (K.get_kv b k d)
  unfolding value_int value get_kv
  value_int_step w b k d = ground arith
