-- ===== src/Kv/Cursor/Listed.antt =====
-- A database in memory as lists, of its buckets' names and of their pairs, that meets the laws of
-- both interfaces.
use dbfs.Prelude.{
  Bool, true, false, Option, none, some, List, [], ◌∷◌, ◌≡◌, refl, ◌&&◌, ◌||◌, Bytes, same, same→eq,
  ap, if◌then◌else◌, arith,
}
use dbfs.Prelude.Res.{Res, ok, err}
use dbfs.Common.Error.{KvError, bucket_exists, bucket_missing, key_value_missing}
use dbfs.Kv.{Kv, is_some}
use dbfs.Kv.Cursor.{Cursor, find_pair}

pub record Cell : Type 0 where
  pub bucket : Bytes
  pub key : Bytes
  pub value : Bytes

pub record Lists : Type 0 where
  pub names : List Bytes
  pub cells : List Cell

abbrev pub mem : Bytes → List Bytes → Bool
mem b [] = false
mem b (n ∷ ns) = same n b || mem b ns

abbrev pub drop_name : Bytes → List Bytes → List Bytes
drop_name b [] = []
drop_name b (n ∷ ns) = let rest = drop_name b ns in if same n b then rest else n ∷ rest

abbrev pub find_cell : Bytes → Bytes → List Cell → Option Bytes
find_cell b k [] = none
find_cell b k (c ∷ cs) =
    let rest = find_cell b k cs in if same c.bucket b && same c.key k then some c.value else rest

abbrev pub drop_cell : Bytes → Bytes → List Cell → List Cell
drop_cell b k [] = []
drop_cell b k (c ∷ cs) =
    let rest = drop_cell b k cs in if same c.bucket b && same c.key k then rest else c ∷ rest

abbrev pub drop_bucket : Bytes → List Cell → List Cell
drop_bucket b [] = []
drop_bucket b (c ∷ cs) = let rest = drop_bucket b cs in if same c.bucket b then rest else c ∷ rest

abbrev pub pairs_of : Bytes → List Cell → List (Bytes × Bytes)
pairs_of b [] = []
pairs_of b (c ∷ cs) =
    let rest = pairs_of b cs in if same c.bucket b then (c.key, c.value) ∷ rest else rest

-- A name that equals two names makes them equal.
same_step : (a b c : Bytes) → same a b ≡ true → same a c ≡ same b c
same_step a b c h = ap (λ v. same v c) (same→eq a b h)

same_back : (a b c : Bytes) → same b c ≡ true → same a b ≡ same a c
same_back a b c h = ap (same a) (same→eq b c h)

pub mem-drop_name :
    (b : Bytes) (ns : List Bytes) (b' : Bytes)
    → mem b' (drop_name b ns) ≡ (if same b b' then false else mem b' ns)
mem-drop_name b [] b' = ground arith
mem-drop_name b (n ∷ ns) b' =
    ground (arith, mem-drop_name b ns b', same_step n b b', same_back n b b')

pub find_cell-drop_cell :
    (b k : Bytes) (cs : List Cell) (b' k' : Bytes)
    → find_cell b' k' (drop_cell b k cs)
      ≡ (if same b b' && same k k' then none else find_cell b' k' cs)
find_cell-drop_cell b k [] b' k' = ground arith
find_cell-drop_cell b k (c ∷ cs) b' k' = ground (
  arith,
  find_cell-drop_cell b k cs b' k',
  same_step c.bucket b b',
  same_step c.key k k',
  same_back c.bucket b b',
  same_back c.key k k',
)

pub find_cell-drop_bucket :
    (b : Bytes) (cs : List Cell) (b' k' : Bytes)
    → find_cell b' k' (drop_bucket b cs) ≡ (if same b b' then none else find_cell b' k' cs)
find_cell-drop_bucket b [] b' k' = ground arith
find_cell-drop_bucket b (c ∷ cs) b' k' =
    ground
      (arith, find_cell-drop_bucket b cs b' k', same_step c.bucket b b', same_back c.bucket b b')

pub find_pair-pairs_of :
    (b k : Bytes) (cs : List Cell) → find_pair k (pairs_of b cs) ≡ find_cell b k cs
unfolding find_pair
find_pair-pairs_of b k [] = refl
find_pair-pairs_of b k (c ∷ cs) = ground (arith, find_pair-pairs_of b k cs)

abbrev pub put_cell : Bytes → Bytes → Bytes → List Cell → List Cell
put_cell b k v cs = record { bucket = b; key = k; value = v } ∷ drop_cell b k cs

pub find_cell-put_cell :
    (b k v : Bytes) (cs : List Cell) (b' k' : Bytes)
    → find_cell b' k' (put_cell b k v cs)
      ≡ (if same b b' && same k k' then some v else find_cell b' k' cs)
find_cell-put_cell b k v cs b' k' = rw (find_cell-drop_cell b k cs b' k') (ground arith)

pub mem-more :
    (b : Bytes) (ns : List Bytes) (b' : Bytes)
    → mem b' (b ∷ ns) ≡ (if same b b' then true else mem b' ns)
mem-more b ns b' = ground arith

pub same_ok : {d d' : Lists} → ◌≡◌ {A = Res KvError Lists} (ok d) (ok d') → d' ≡ d
same_ok h = cc

abbrev pub listed : Kv
listed = record {
  Db = Lists;
  begin = λ w d. ok d;
  commit = λ d. ok d;
  get_bucket = λ b d. if mem b d.names then ok tt else err bucket_missing;
  create_bucket = λ b d.
      if mem b d.names
      then err bucket_exists
      else ok (record { names = b ∷ d.names; cells = drop_bucket b d.cells });
  delete_bucket = λ b d.
      if mem b d.names
      then ok (record { names = drop_name b d.names; cells = drop_bucket b d.cells })
      else err bucket_missing;
  get_kv = λ b k d. find_cell b k d.cells;
  put = λ b k v d.
      if mem b d.names
      then ok (record d { cells = put_cell b k v d.cells })
      else err bucket_missing;
  delete = λ b k d.
      if is_some (find_cell b k d.cells)
      then ok (record d { cells = drop_cell b k d.cells })
      else err key_value_missing;
  has = λ b d. mem b d.names;
  with_kv = λ b k v d. record d { cells = put_cell b k v d.cells };
  without_kv = λ b k d. record d { cells = drop_cell b k d.cells };
  with_bucket = λ b d. record { names = b ∷ d.names; cells = drop_bucket b d.cells };
  without_bucket = λ b d. record { names = drop_name b d.names; cells = drop_bucket b d.cells };
  begin_law = λ w d {d'} h. same_ok h;
  commit_law = λ d {d'} h. same_ok h;
  get_bucket_law = λ b d. refl;
  create_bucket_law = λ b d. refl;
  delete_bucket_law = λ b d. refl;
  put_law = λ b k v d. refl;
  delete_law = λ b k d. refl;
  has-with_kv = λ b k v d b'. refl;
  has-without_kv = λ b k d b'. refl;
  has-with_bucket = λ b d b'. mem-more b d.names b';
  has-without_bucket = λ b d b'. mem-drop_name b d.names b';
  get_kv-with_kv = λ b k v d b' k'. find_cell-put_cell b k v d.cells b' k';
  get_kv-without_kv = λ b k d b' k'. find_cell-drop_cell b k d.cells b' k';
  get_kv-with_bucket = λ b d b' k'. find_cell-drop_bucket b d.cells b' k';
  get_kv-without_bucket = λ b d b' k'. find_cell-drop_bucket b d.cells b' k';
}

abbrev pub listed_cursor : Cursor listed
listed_cursor = record {
  begin_batch = λ d. d;
  begin_batch_law = λ d. refl;
  pairs = λ b d. pairs_of b d.cells;
  pairs_law = λ b k d. find_pair-pairs_of b k d.cells;
}
