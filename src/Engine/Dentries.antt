-- ===== src/Engine/Dentries.antt =====
-- src/tx_engine.rs: the operations on directory entries, in the buckets `dir_<inode>`.
pub mod Lookup
pub mod Edit
use dbfs.Prelude.{ℕ, zero, suc, Bool, Option, none, some, List, [], ◌∷◌, Bytes, if◌then◌else◌}
use dbfs.Prelude.Res
use dbfs.Prelude.Res.{Res, ok, err, panic, ok_or}
use dbfs.Bytes.{be_bytes}
use dbfs.Common.Error.{DbfsResult, not_found, io, other}
use dbfs.Kv.{Kv}
use dbfs.Kv.Cursor.{Cursor}
use dbfs.Store.Tx.{Tx, lift, ◌>>=◌, ◌>>◌, or_err, get_bucket, get_or_create_bucket, put, delete}
use dbfs.LogManager.{BlockDevice}
use dbfs.Engine.Index.{dir_bucket, number_or_other, Eng, batch_tx, view_tx, value_or_missing}

-- `bucket.cursor().nth(index)`
abbrev pub nth : ℕ → List (Bytes × Bytes) → Option (Bytes × Bytes)
nth index [] = none
nth zero (p ∷ ps) = some p
nth (suc index) (p ∷ ps) = nth index ps

module _ (K : Kv) (C : Cursor K) (D : BlockDevice) where
  open K use {Db}

  unfoldable pub add_dentry_body : ℕ → Bytes → ℕ → Tx Db (Unit {0})
  add_dentry_body parent_ino name child_ino = do
    or_err io (get_or_create_bucket K (dir_bucket parent_ino))
    put K (dir_bucket parent_ino) name (be_bytes 8 child_ino)

  unfoldable pub add_dentry : ℕ → Bytes → ℕ → Eng K C D (Unit {0})
  unfolding add_dentry_body
  add_dentry parent_ino name child_ino = batch_tx K C D (add_dentry_body parent_ino name child_ino)

  unfoldable pub lookup_dentry_body : ℕ → Bytes → Tx Db ℕ
  lookup_dentry_body parent_ino name = do
    or_err not_found (get_bucket K (dir_bucket parent_ino))
    v ← value_or_missing K (dir_bucket parent_ino) name
    lift (number_or_other v)

  unfoldable pub lookup_dentry : ℕ → Bytes → Eng K C D ℕ
  unfolding lookup_dentry_body
  lookup_dentry parent_ino name = view_tx K C D (lookup_dentry_body parent_ino name)

  -- The name is kept as its bytes; `String::from_utf8` refuses those that are no text.
  abbrev entry_listed : (Bytes → Bool) → Option (Bytes × Bytes) → DbfsResult (Option (Bytes × ℕ))
  entry_listed is_text none = ok none
  entry_listed is_text (some (key, v)) =
      let found = Res.◌>>=◌ (number_or_other v) λ ino. ok (some (key, ino)) in
      if is_text key then found else err other

  unfoldable pub list_dentries : (Bytes → Bool) → ℕ → ℕ → Eng K C D (Option (Bytes × ℕ))
  list_dentries is_text parent_ino start_index =
      let b = dir_bucket parent_ino in
      view_tx K C D λ d.
        let found =
          Res.◌>>=◌ (entry_listed is_text (nth start_index (C.pairs b d))) λ out. ok (out, d) in
        elim (get_bucket K b d) [ ok u ↦ found | err e ↦ ok (none, d) | panic ↦ panic ]

  unfoldable pub delete_dentry_body : ℕ → Bytes → Tx Db (Unit {0})
  delete_dentry_body parent_ino name = do
    or_err not_found (get_bucket K (dir_bucket parent_ino))
    or_err io (delete K (dir_bucket parent_ino) name)

  unfoldable pub delete_dentry : ℕ → Bytes → Eng K C D (Unit {0})
  unfolding delete_dentry_body
  delete_dentry parent_ino name = batch_tx K C D (delete_dentry_body parent_ino name)
