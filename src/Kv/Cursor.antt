-- ===== src/Kv/Cursor.antt =====
-- The rest of jammdb that the transaction engine calls: `db.begin_batch()` and `bucket.cursor()`, as
-- parameters with their documented behaviour.
pub mod Listed
use dbfs.Prelude.{Option, none, some, List, [], ◌∷◌, ◌≡◌, Bytes, same, if◌then◌else◌}
use dbfs.Kv.{Kv}

-- The value of the first pair with the key.
unfoldable pub find_pair : Bytes → List (Bytes × Bytes) → Option Bytes
find_pair k [] = none
find_pair k ((k', v) ∷ ps) = let rest = find_pair k ps in if same k' k then some v else rest

pub record Cursor (K : Kv) : Type 0 where
  -- `db.begin_batch()`: a writing transaction over the committed contents.
  pub begin_batch : K.Db → K.Db
  pub begin_batch_law : (d : K.Db) → begin_batch d ≡ d
  -- `bucket.cursor()`: the pairs of a bucket, in the order in which they are visited.
  pub pairs : Bytes → K.Db → List (Bytes × Bytes)
  pub pairs_law : (b k : Bytes) (d : K.Db) → find_pair k (pairs b d) ≡ K.get_kv b k d
