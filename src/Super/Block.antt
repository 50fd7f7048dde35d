-- ===== src/Super/Block.antt =====
-- src/fs_type.rs: the super block that a mount reads, and the counter that it sets.
use Prim.Native.String.{String}
use dbfs.Prelude.{ℕ, false}
use dbfs.Prelude.Act.{pure, ◌>>=◌, ◌>>◌, or_err}
use dbfs.Prelude.Res
use dbfs.Prelude.Res.{ok, err, panic, assert}
use dbfs.Common.Error.{try}
use dbfs.Common.Keys.{super_blk, k_continue_number}
use dbfs.Kv.{Kv}
use dbfs.Store.Tx.{Tx, Fs, get_bucket, value_int}
use dbfs.Super.{k_magic, k_blk_size, Rvfs}

-- The fields of the SuperBlock that come from the database.
pub record SuperBlock : Type 0 where
  pub block_size : ℕ
  pub magic : ℕ

module _ (K : Kv) where
  open K use {Db}

  -- The transaction `db.tx(false)`, and a step of it.
  abbrev begun : Fs Db Db
  begun s = (try (K.begin false s.db), s)

  abbrev in_tx : {A : Type 0} → Db → Tx Db A → Fs Db A
  in_tx d m s = (Res.◌>>=◌ (m d) λ out. ok out.0, s)

  -- `DBFS_INODE_NUMBER.store(n, …)`
  abbrev store_inode_number : ℕ → Rvfs K (Unit {0})
  store_inode_number n s = (ok tt, record s { next_inode = n })

  abbrev no_tx : String
  no_tx = "dbfs_fill_super_block: get db tx failed"

  abbrev no_super_blk : String
  no_super_blk = "dbfs_fill_super_block: get bucket failed"

  unfoldable pub dbfs_create_simple_super_blk : Rvfs K SuperBlock
  dbfs_create_simple_super_blk = do
    d ← or_err no_tx begun
    or_err no_super_blk (in_tx d (get_bucket K super_blk))
    continue_number ← or_err no_super_blk (in_tx d (value_int K 8 super_blk k_continue_number))
    store_inode_number continue_number
    blk_size ← or_err no_super_blk (in_tx d (value_int K 4 super_blk k_blk_size))
    magic ← or_err no_super_blk (in_tx d (value_int K 4 super_blk k_magic))
    pure (record { block_size = blk_size; magic = magic })
