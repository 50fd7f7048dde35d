-- ===== src/Vfs/Mount.antt =====
-- src/rvfs_adapter.rs: what `mount` of DbfsFsType writes into a new database, and what it leaves alone
-- in one that has inodes.
pub mod Root
use dbfs.Prelude.{
  ℕ, ◌^◌, ◌<◌, ◌≡◌, refl, sym, ap, ◌∙◌, true, false, Bool-cases, inl, inr, Option, none, some, [],
  Bytes, codes, same, same_refl, same→eq, arith,
}
use dbfs.Prelude.Res.{ok, err, map_err}
use dbfs.Prelude.Act
use dbfs.Bytes.{be_bytes}
use dbfs.Prelude.Words.{pos}
use dbfs.Common.Error.{io}
use dbfs.Common.Keys.{super_blk, k_disk_size}
use dbfs.Kv.{Kv}
use dbfs.Kv.Cursor.{Cursor}
use dbfs.Store.Atomic.{Serves}
use dbfs.Store.Laws.{no_bucket_step, create_bucket_step, put_step, get_bucket_step}
use dbfs.Store.Tx.{
  Tx, lift, ◌>>=◌, ◌>>◌, or_err, or_panic, when, no_bucket, get_bucket, create_bucket, put, put_int,
}
use dbfs.Engine.{InodeMetadata}
use dbfs.Engine.Index.{Serde, TransactionEngine, inodes, batch_tx, dir_bucket, number_or_other}
use dbfs.Engine.Inodes.Allocate.{IsNumbered}
use dbfs.Engine.Inodes.Meta.{meta_at, with_meta}
use dbfs.Engine.Dentries.Lookup.{entry_at, number_or_other-be_bytes}
use dbfs.Engine.Steps.{batch_tx-ok}
use dbfs.Vfs.{Vfs, VfsError, io_error, no_entry, stat_of, lookup, get_attr}
use dbfs.Vfs.Names.{lookup-run, get_attr-run, stat_at-ok}
use dbfs.LogManager.{BlockDevice}

abbrev pub k_magic : Bytes
k_magic = codes "magic"

abbrev pub dir_1 : Bytes
dir_1 = codes "dir_1"

abbrev pub mount_root : InodeMetadata
mount_root = record {
  ino = 1;
  size = 0;
  mode = 0o040755;
  nlink = 2;
  extents = [];
  atime = pos 0;
  mtime = pos 0;
}

module _ (K : Kv) (S : Serde) where
  open K use {Db}

  -- The steps on a database that has no inodes; `disk_size` is the size of the device.
  unfoldable pub format_body : ℕ → Tx Db (Unit {0})
  format_body disk_size = do
    or_err io (create_bucket K inodes)
    or_err io (create_bucket K super_blk)
    or_panic (put_int K 4 super_blk k_magic 0x44424653)
    or_panic (put_int K 8 super_blk k_disk_size disk_size)
    or_panic (get_bucket K inodes)
    meta_data ← or_panic (lift (S.serialize mount_root))
    or_panic (put K inodes (be_bytes 8 1) meta_data)
    or_err io (create_bucket K dir_1)
    or_panic (put_int K 8 dir_1 (codes ".") 1)
    or_panic (put_int K 8 dir_1 (codes "..") 1)

  unfoldable pub mount_body : ℕ → Tx Db (Unit {0})
  unfolding format_body
  mount_body disk_size = do missing ← no_bucket K inodes; when missing (format_body disk_size)

module _ (K : Kv) (C : Cursor K) (D : BlockDevice) (S : Serde) where
  unfoldable pub mount_init : ℕ → Vfs K C D S (Unit {0})
  unfolding mount_body
  mount_init disk_size = Act.or_err io_error (batch_tx K C D (mount_body K S disk_size))
