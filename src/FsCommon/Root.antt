-- ===== src/FsCommon/Root.antt =====
-- What `dbfs_common_root_inode` of src/fs_common.rs leaves.
use dbfs.Prelude.{ℕ, ◌≡◌, false, same_refl}
use dbfs.Prelude.Res.{ok, panic}
use dbfs.Common.Keys.{ino_key}
use dbfs.Common.Time.{DbfsTimeSpec}
use dbfs.Kv.{Kv}
use dbfs.Store.Atomic.{Serves}
use dbfs.Store.Laws.{no_bucket_step, create_bucket_step, put_step}
use dbfs.Store.Tx.{State}
use dbfs.FsCommon.{root_pairs, dbfs_common_root_inode}

-- Where the database serves every transaction, has no root inode and the counter stands at 1, the
-- call succeeds, stores nothing and raises the counter, and a second call panics.
pub root_inode-lost :
    (K : Kv) (s : State K.Db) (uid gid : ℕ) (ctime : DbfsTimeSpec)
    → Serves K
    → K.has (ino_key 1) s.db ≡ false
    → s.next_inode ≡ 1
    → (dbfs_common_root_inode K uid gid ctime s ≡ (ok 1, record s { next_inode = 2 }))
      × (dbfs_common_root_inode K uid gid ctime (record s { next_inode = 2 })
          ≡ (panic, record s { next_inode = 3 }))
unfolding dbfs_common_root_inode root_pairs
root_inode-lost K s uid gid ctime serves none_yet first = (
  simp (
    serves.begins,
    no_bucket_step K,
    create_bucket_step K,
    put_step K,
    K.has-with_kv,
    K.has-with_bucket,
    same_refl (ino_key 1),
    none_yet,
    first,
  ),
  simp (serves.begins, no_bucket_step K, create_bucket_step K, none_yet),
)
