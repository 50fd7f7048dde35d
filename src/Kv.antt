-- ===== src/Kv.antt =====
-- jammdb, the key-value database under the file system, as the code uses it. It is not part of the
-- repository, so it is a parameter: the operations that the code calls, and their documented
-- behaviour as laws. Buckets hold pairs only, since no code modelled here nests a bucket in a bucket.
-- `Memory` and `Cursor.Listed`, modules below, show that the laws can be met.
pub mod Memory
pub mod Cursor
use dbfs.Prelude.{Bool, true, false, Option, none, some, ◌≡◌, ◌&&◌, Bytes, same, if◌then◌else◌}
use dbfs.Prelude.Res.{Res, ok, err}
use dbfs.Common.Error.{KvError, bucket_exists, bucket_missing, key_value_missing}

abbrev pub is_some : {A : Type 0} → Option A → Bool
is_some none = false
is_some (some a) = true

pub record Kv : Type 1 where
  -- What a transaction sees: its own writes over the contents that it began with.
  pub Db : Type 0
  -- `db.tx(writable)`, `tx.commit()`
  pub begin : Bool → Db → Res KvError Db
  pub commit : Db → Res KvError Db
  -- `tx.get_bucket(name)`, `tx.create_bucket(name)`, `tx.delete_bucket(name)`
  pub get_bucket : Bytes → Db → Res KvError (Unit {0})
  pub create_bucket : Bytes → Db → Res KvError Db
  pub delete_bucket : Bytes → Db → Res KvError Db
  -- `bucket.get_kv(key)`, `bucket.put(key, value)`, `bucket.delete(key)`, the bucket by its name
  pub get_kv : Bytes → Bytes → Db → Option Bytes
  pub put : Bytes → Bytes → Bytes → Db → Res KvError Db
  pub delete : Bytes → Bytes → Db → Res KvError Db
  -- The contents: which buckets there are, and what a write that succeeds leaves.
  pub has : Bytes → Db → Bool
  pub with_kv : Bytes → Bytes → Bytes → Db → Db
  pub without_kv : Bytes → Bytes → Db → Db
  pub with_bucket : Bytes → Db → Db
  pub without_bucket : Bytes → Db → Db
  -- A transaction begins with the committed contents, and commits what it sees or fails.
  pub begin_law : (w : Bool) (d : Db) {d' : Db} → begin w d ≡ ok d' → d' ≡ d
  pub commit_law : (d : Db) {d' : Db} → commit d ≡ ok d' → d' ≡ d
  -- Which operations succeed.
  pub get_bucket_law :
      (b : Bytes) (d : Db) → get_bucket b d ≡ (if has b d then ok tt else err bucket_missing)
  pub create_bucket_law :
      (b : Bytes) (d : Db)
      → create_bucket b d ≡ (if has b d then err bucket_exists else ok (with_bucket b d))
  pub delete_bucket_law :
      (b : Bytes) (d : Db)
      → delete_bucket b d ≡ (if has b d then ok (without_bucket b d) else err bucket_missing)
  pub put_law :
      (b k v : Bytes) (d : Db)
      → put b k v d ≡ (if has b d then ok (with_kv b k v d) else err bucket_missing)
  pub delete_law :
      (b k : Bytes) (d : Db)
      → delete b k d
        ≡ (if is_some (get_kv b k d) then ok (without_kv b k d) else err key_value_missing)
  -- Which buckets there are after a write.
  pub has-with_kv : (b k v : Bytes) (d : Db) (b' : Bytes) → has b' (with_kv b k v d) ≡ has b' d
  pub has-without_kv : (b k : Bytes) (d : Db) (b' : Bytes) → has b' (without_kv b k d) ≡ has b' d
  pub has-with_bucket :
      (b : Bytes) (d : Db) (b' : Bytes)
      → has b' (with_bucket b d) ≡ (if same b b' then true else has b' d)
  pub has-without_bucket :
      (b : Bytes) (d : Db) (b' : Bytes)
      → has b' (without_bucket b d) ≡ (if same b b' then false else has b' d)
  -- What is read after a write.
  pub get_kv-with_kv :
      (b k v : Bytes) (d : Db) (b' k' : Bytes)
      → get_kv b' k' (with_kv b k v d) ≡ (if same b b' && same k k' then some v else get_kv b' k' d)
  pub get_kv-without_kv :
      (b k : Bytes) (d : Db) (b' k' : Bytes)
      → get_kv b' k' (without_kv b k d) ≡ (if same b b' && same k k' then none else get_kv b' k' d)
  pub get_kv-with_bucket :
      (b : Bytes) (d : Db) (b' k' : Bytes)
      → get_kv b' k' (with_bucket b d) ≡ (if same b b' then none else get_kv b' k' d)
  pub get_kv-without_bucket :
      (b : Bytes) (d : Db) (b' k' : Bytes)
      → get_kv b' k' (without_bucket b d) ≡ (if same b b' then none else get_kv b' k' d)
