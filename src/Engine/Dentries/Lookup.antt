-- ===== src/Engine/Dentries/Lookup.antt =====
-- A directory entry that was added is found, one that was deleted is not, and no other lookup
-- changes.
use dbfs.Prelude.{
  ℕ, ◌^◌, ◌<◌, ◌≡◌, ◌≢◌, ◌⊎◌, inl, inr, refl, sym, ap, ◌∙◌, true, false, Option, none, some, ◌&&◌,
  Bytes, same, same_refl, same-ne, if◌then◌else◌, arith,
}
use native.Mathlib.Decide.{ℕ_discrete}
use dbfs.Prelude.Res.{ok, err}
use dbfs.Bytes.{be_bytes, decimal, parse_usize}
use dbfs.Bytes.BigEndian.{length-be_bytes, from_be-be_bytes}
use dbfs.Bytes.Decimal.{parse_usize-decimal}
use dbfs.Common.Error.{DbfsResult, not_found}
use dbfs.Kv.{Kv}
use dbfs.Kv.Cursor.{Cursor}
use dbfs.Store.Laws.{get_bucket_step, create_bucket_step, put_at, delete_step, with_db}
use dbfs.Store.Tx.{get_kv, get_or_create_bucket}
use dbfs.Engine.Index.{dir_bucket, number_or_other, inodes}
use dbfs.Engine.Dentries.{add_dentry_body, lookup_dentry_body, delete_dentry_body}
use dbfs.LogManager.{BlockDevice}

decimal-ne : (a b : ℕ) → a < 2 ^ 64 → b < 2 ^ 64 → a ≢ b → decimal a ≢ decimal b
decimal-ne a b ha hb ne e =
    ne (some_inj (sym (parse_usize-decimal a ha) ∙ ap parse_usize e ∙ parse_usize-decimal b hb))
  where
    some_inj : some a ≡ some b → a ≡ b
    some_inj e = cc

pub dir_bucket-ne :
    (a b : ℕ) → a < 2 ^ 64 → b < 2 ^ 64 → a ≢ b → same (dir_bucket a) (dir_bucket b) ≡ false
unfolding dir_bucket
dir_bucket-ne a b ha hb ne = same-ne (decimal a) (decimal b) (decimal-ne a b ha hb ne)

apart_keys :
    (dir dir' : ℕ) (name name' : Bytes)
    → dir < 2 ^ 64
    → dir' < 2 ^ 64
    → (dir ≢ dir') ⊎ (name ≢ name')
    → (same (dir_bucket dir) (dir_bucket dir') && same name name') ≡ false
apart_keys dir dir' name name' f f' (inl ne) = rw (dir_bucket-ne dir dir' f f' ne)
apart_keys dir dir' name name' f f' (inr ne) = rw (same-ne name name' ne) (ground arith)

-- The bucket of the inodes is no directory's.
pub dir_bucket-inodes : (a : ℕ) → same (dir_bucket a) inodes ≡ false
unfolding dir_bucket
dir_bucket-inodes a = refl

pub number_or_other-be_bytes : (n : ℕ) → n < 2 ^ 64 → number_or_other (be_bytes 8 n) ≡ ok n
unfolding number_or_other
number_or_other-be_bytes n h = rw (length-be_bytes 8 n, from_be-be_bytes 8 n h)

module _ (K : Kv) where
  open K use {Db}

  abbrev number_found : Option Bytes → DbfsResult ℕ
  number_found none = err not_found
  number_found (some v) = number_or_other v

  -- What a lookup finds in the contents.
  abbrev pub entry_at : ℕ → Bytes → Db → DbfsResult ℕ
  entry_at dir name d =
      let b = dir_bucket dir in
      if K.has b d then number_found (K.get_kv b name d) else err not_found

  -- The contents with the directory's bucket, which is made if it is missing.
  abbrev pub with_dir : ℕ → Db → Db
  with_dir dir d = let b = dir_bucket dir in if K.has b d then d else K.with_bucket b d

  abbrev pub with_dentry : ℕ → Bytes → ℕ → Db → Db
  with_dentry dir name child d = K.with_kv (dir_bucket dir) name (be_bytes 8 child) (with_dir dir d)

  has-with_dir : (dir : ℕ) (d : Db) → K.has (dir_bucket dir) (with_dir dir d) ≡ true
  has-with_dir dir d =
      ground
        (arith, K.has-with_bucket (dir_bucket dir) d (dir_bucket dir), same_refl (dir_bucket dir))

  module _ (C : Cursor K) (D : BlockDevice) where
    pub lookup_step :
        (dir : ℕ) (name : Bytes) (d : Db)
        → lookup_dentry_body K C D dir name d ≡ with_db K d (entry_at dir name d)
    unfolding lookup_dentry_body get_kv
    lookup_step dir name d = rw (get_bucket_step K (dir_bucket dir) d) (ground arith)

    made_dir :
        (dir : ℕ) (d : Db) → get_or_create_bucket K (dir_bucket dir) d ≡ ok (tt, with_dir dir d)
    unfolding get_or_create_bucket
    made_dir dir d = rw (create_bucket_step K (dir_bucket dir) d) (ground arith)

    pub add_step :
        (dir : ℕ) (name : Bytes) (child : ℕ) (d : Db)
        → add_dentry_body K C D dir name child d ≡ ok (tt, with_dentry dir name child d)
    unfolding add_dentry_body
    add_step dir name child d = rw (
      made_dir dir d,
      put_at K (dir_bucket dir) name (be_bytes 8 child) (with_dir dir d) (has-with_dir dir d),
    )

  module _ (dir : ℕ) (d : Db) where
    has-with_dir-other :
        (b : Bytes) → same (dir_bucket dir) b ≡ false → K.has b (with_dir dir d) ≡ K.has b d
    has-with_dir-other b ne = ground (arith, K.has-with_bucket (dir_bucket dir) d b)

    get_kv-with_dir-other :
        (b k : Bytes)
        → same (dir_bucket dir) b ≡ false
        → K.get_kv b k (with_dir dir d) ≡ K.get_kv b k d
    get_kv-with_dir-other b k ne = ground (arith, K.get_kv-with_bucket (dir_bucket dir) d b k)

    -- A directory's bucket that was made is empty.
    number_found-with_dir :
        (name : Bytes)
        → number_found (K.get_kv (dir_bucket dir) name (with_dir dir d)) ≡ entry_at dir name d
    number_found-with_dir name = ground (
      arith,
      K.get_kv-with_bucket (dir_bucket dir) d (dir_bucket dir) name,
      same_refl (dir_bucket dir),
    )

  module _ (dir : ℕ) (name : Bytes) (d : Db) where
    -- No other bucket is touched.
    pub has-with_dentry :
        (child : ℕ) (b : Bytes)
        → same (dir_bucket dir) b ≡ false
        → K.has b (with_dentry dir name child d) ≡ K.has b d
    has-with_dentry child b ne = simp (K.has-with_kv, has-with_dir-other dir d b ne)

    pub get_kv-with_dentry :
        (child : ℕ) (b k : Bytes)
        → same (dir_bucket dir) b ≡ false
        → K.get_kv b k (with_dentry dir name child d) ≡ K.get_kv b k d
    get_kv-with_dentry child b k ne =
        simp (K.get_kv-with_kv, ne, get_kv-with_dir-other dir d b k ne)

    pub entry_at-added :
        (child : ℕ) → child < 2 ^ 64 → entry_at dir name (with_dentry dir name child d) ≡ ok child
    entry_at-added child fits = simp (
      K.has-with_kv,
      has-with_dir dir d,
      K.get_kv-with_kv,
      same_refl,
      number_or_other-be_bytes child fits,
    )

    pub entry_at-others :
        (child dir' : ℕ) (name' : Bytes)
        → dir < 2 ^ 64
        → dir' < 2 ^ 64
        → (dir ≢ dir') ⊎ (name ≢ name')
        → entry_at dir' name' (with_dentry dir name child d) ≡ entry_at dir' name' d
    entry_at-others child dir' name' f f' apart = elim (ℕ_discrete dir dir') [
      | no ne ↦
          let e = dir_bucket-ne dir dir' f f' ne in
          rw (
            has-with_dentry child (dir_bucket dir') e,
            get_kv-with_dentry child (dir_bucket dir') name' e,
          )
      | yes e ↦ rw (← e) (entry_at-same child name' (λ n. elim apart [ inl x ↦ x e | inr x ↦ x n ]))
    ]
      where
        entry_at-same :
            (child : ℕ) (name' : Bytes)
            → name ≢ name'
            → entry_at dir name' (with_dentry dir name child d) ≡ entry_at dir name' d
        entry_at-same child name' ne = simp (
          K.has-with_kv,
          has-with_dir dir d,
          K.get_kv-with_kv,
          same_refl (dir_bucket dir),
          same-ne name name' ne,
          number_found-with_dir dir d name',
        )

  -- The contents after the deletion of an entry.
  abbrev pub without_dentry : ℕ → Bytes → Db → Db
  without_dentry dir name d = K.without_kv (dir_bucket dir) name d

  module _ (C : Cursor K) (D : BlockDevice) where
    pub delete_step_at :
        (dir : ℕ) (name : Bytes) (d : Db) {ino : ℕ}
        → entry_at dir name d ≡ ok ino
        → delete_dentry_body K C D dir name d ≡ ok (tt, without_dentry dir name d)
    unfolding delete_dentry_body
    delete_step_at dir name d h =
        rw (get_bucket_step K (dir_bucket dir) d)
          (ground (arith, delete_step K (dir_bucket dir) name d))

  pub entry_at-deleted :
      (dir : ℕ) (name : Bytes) (d : Db)
      → entry_at dir name (without_dentry dir name d) ≡ err not_found
  entry_at-deleted dir name d =
      let gone : number_found (K.get_kv (dir_bucket dir) name (without_dentry dir name d))
          ≡ err not_found =
        simp (K.get_kv-without_kv, same_refl) in
      rw gone (ground arith)

  pub entry_at-kept :
      (dir dir' : ℕ) (name name' : Bytes) (d : Db)
      → dir < 2 ^ 64
      → dir' < 2 ^ 64
      → (dir ≢ dir') ⊎ (name ≢ name')
      → entry_at dir' name' (without_dentry dir name d) ≡ entry_at dir' name' d
  entry_at-kept dir dir' name name' d f f' apart =
      simp (K.has-without_kv, K.get_kv-without_kv, apart_keys dir dir' name name' f f' apart)
