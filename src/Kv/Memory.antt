-- ===== src/Kv/Memory.antt =====
-- A database in memory that meets the laws: which buckets there are, and what each pair holds, as
-- functions. Every transaction begins and commits.
use dbfs.Prelude.{
  Bool, true, false, Option, none, some, ◌≡◌, refl, ◌&&◌, Bytes, same, if◌then◌else◌,
}
use dbfs.Prelude.Res.{Res, ok, err}
use dbfs.Common.Error.{KvError, bucket_exists, bucket_missing, key_value_missing}
use dbfs.Kv.{Kv, is_some}

pub record Disk : Type 0 where
  pub names : Bytes → Bool
  pub pairs : Bytes → Bytes → Option Bytes

abbrev pub empty_disk : Disk
empty_disk = record { names = λ b. false; pairs = λ b k. none }

pub begin_same : {d d' : Disk} → ◌≡◌ {A = Res KvError Disk} (ok d) (ok d') → d' ≡ d
begin_same h = cc

abbrev pub memory : Kv
memory = record {
  Db = Disk;
  begin = λ w d. ok d;
  commit = λ d. ok d;
  get_bucket = λ b d. if d.names b then ok tt else err bucket_missing;
  create_bucket = λ b d.
      if d.names b
      then err bucket_exists
      else ok (record {
        names = λ b'. if same b b' then true else d.names b';
        pairs = λ b' k'. if same b b' then none else d.pairs b' k';
      });
  delete_bucket = λ b d.
      if d.names b
      then ok (record {
        names = λ b'. if same b b' then false else d.names b';
        pairs = λ b' k'. if same b b' then none else d.pairs b' k';
      })
      else err bucket_missing;
  get_kv = λ b k d. d.pairs b k;
  put = λ b k v d.
      if d.names b
      then ok
          (record d { pairs = λ b' k'. if same b b' && same k k' then some v else d.pairs b' k' })
      else err bucket_missing;
  delete = λ b k d.
      if is_some (d.pairs b k)
      then ok (record d { pairs = λ b' k'. if same b b' && same k k' then none else d.pairs b' k' })
      else err key_value_missing;
  has = λ b d. d.names b;
  with_kv = λ b k v d. record d {
    pairs = λ b' k'. if same b b' && same k k' then some v else d.pairs b' k';
  };
  without_kv =
      λ b k d. record d { pairs = λ b' k'. if same b b' && same k k' then none else d.pairs b' k' };
  with_bucket = λ b d. record {
    names = λ b'. if same b b' then true else d.names b';
    pairs = λ b' k'. if same b b' then none else d.pairs b' k';
  };
  without_bucket = λ b d. record {
    names = λ b'. if same b b' then false else d.names b';
    pairs = λ b' k'. if same b b' then none else d.pairs b' k';
  };
  begin_law = λ w d {d'} h. begin_same h;
  commit_law = λ d {d'} h. begin_same h;
  get_bucket_law = λ b d. refl;
  create_bucket_law = λ b d. refl;
  delete_bucket_law = λ b d. refl;
  put_law = λ b k v d. refl;
  delete_law = λ b k d. refl;
  has-with_kv = λ b k v d b'. refl;
  has-without_kv = λ b k d b'. refl;
  has-with_bucket = λ b d b'. refl;
  has-without_bucket = λ b d b'. refl;
  get_kv-with_kv = λ b k v d b' k'. refl;
  get_kv-without_kv = λ b k d b' k'. refl;
  get_kv-with_bucket = λ b d b' k'. refl;
  get_kv-without_bucket = λ b d b' k'. refl;
}
