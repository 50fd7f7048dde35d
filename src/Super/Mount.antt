-- ===== src/Super/Mount.antt =====
-- The next inode number, written back at an unmount and read at the next mount.
use dbfs.Prelude.{ℕ, ◌^◌, ◌<◌, ◌≡◌, refl, true, false, some}
use dbfs.Prelude.Res.{Res, ok}
use dbfs.Bytes.{be_bytes}
use dbfs.Common.Error.{DbfsError}
use dbfs.Common.Keys.{super_blk, k_continue_number}
use dbfs.Kv.{Kv}
use dbfs.Store.Atomic.{Serves, write_tx-ok, write_tx_unwrap-ok}
use dbfs.Store.Laws.{get_bucket_step, put_step, value_int_at, get_bucket_at}
use dbfs.Store.Tx.{State, get_or_create_bucket}
use dbfs.Super.{k_magic, k_blk_size, umount_body, dbfs_common_umount, sync_body, dbfs_sync_fs}
use dbfs.Super.Block.{SuperBlock, dbfs_create_simple_super_blk}

module _ (K : Kv) where
  open K use {Db}

  -- The pairs of the super block that a mount reads beside the counter.
  pub record HasBlock (b : SuperBlock) (d : Db) : Type 0 where
    pub there : K.has super_blk d ≡ true
    pub block_size_at : K.get_kv super_blk k_blk_size d ≡ some (be_bytes 4 b.block_size)
    pub magic_at : K.get_kv super_blk k_magic d ≡ some (be_bytes 4 b.magic)
    pub block_size_fits : b.block_size < 2 ^ 32
    pub magic_fits : b.magic < 2 ^ 32

  -- The contents with the counter.
  abbrev counted : ℕ → Db → Db
  counted n d = K.with_kv super_blk k_continue_number (be_bytes 8 n) d

  module _ (b : SuperBlock) (d : Db) (h : HasBlock b d) where
    umount_body-run : (n : ℕ) → umount_body K n d ≡ ok (tt, counted n d)
    unfolding umount_body
    umount_body-run n = simp (get_bucket_step K, put_step K, h.there)

    sync_body-run : (n : ℕ) → sync_body K n d ≡ ok (tt, counted n d)
    unfolding sync_body get_or_create_bucket
    sync_body-run n = simp (put_step K, h.there)

    HasBlock-counted : (n : ℕ) → HasBlock b (counted n d)
    HasBlock-counted n = record {
      there = simp (K.has-with_kv, h.there);
      block_size_at = simp (K.get_kv-with_kv, h.block_size_at);
      magic_at = simp (K.get_kv-with_kv, h.magic_at);
      block_size_fits = h.block_size_fits;
      magic_fits = h.magic_fits;
    }

  module _ (b : SuperBlock) (s : State Db) where
    -- The unmount succeeds, and a mount behind it, from any state of the counter, gives the super
    -- block and the counter as it was.
    abbrev pub Remounts : Res DbfsError (Unit {0}) × State Db → Type 0
    Remounts out =
        (out.0 ≡ ok tt)
        × ((n : ℕ)
            → dbfs_create_simple_super_blk K (record out.1 { next_inode = n })
              ≡ (ok b, record out.1 { next_inode = s.next_inode }))

  module _ (serves : Serves K) (b : SuperBlock) where
    mount-counted :
        (d : Db) (m n : ℕ)
        → HasBlock b d
        → K.get_kv super_blk k_continue_number d ≡ some (be_bytes 8 m)
        → m < 2 ^ 64
        → dbfs_create_simple_super_blk K (record { db = d; next_inode = n })
          ≡ (ok b, record { db = d; next_inode = m })
    unfolding dbfs_create_simple_super_blk
    mount-counted d m n h at fits = rw (
      serves.begins false d,
      get_bucket_at K super_blk d h.there,
      value_int_at K 8 m super_blk k_continue_number d at fits,
      value_int_at K 4 b.block_size super_blk k_blk_size d h.block_size_at h.block_size_fits,
      value_int_at K 4 b.magic super_blk k_magic d h.magic_at h.magic_fits,
    )

    -- In a database that serves and has a super block, with a counter below `2 ^ 64`: an unmount, and a
    -- sync, succeed, and a mount behind either reads the super block and sets the counter to what it
    -- was, whatever it was set to in between.
    pub umount-mount :
        (s : State Db)
        → HasBlock b s.db
        → s.next_inode < 2 ^ 64
        → Remounts b s (dbfs_common_umount K s)
          × (dbfs_sync_fs K s ≡ (ok tt, (dbfs_common_umount K s).1))
    unfolding dbfs_common_umount dbfs_sync_fs
    umount-mount s h fits =
        let n = s.next_inode in
        let stored : K.get_kv super_blk k_continue_number (counted n s.db) ≡ some (be_bytes 8 n) =
          simp K.get_kv-with_kv in
        rw
          (
            write_tx-ok K (umount_body K n) s serves (umount_body-run b s.db h n),
            write_tx_unwrap-ok K (sync_body K n) s serves (sync_body-run b s.db h n),
          )
          (
            (
              refl,
              λ m. mount-counted (counted n s.db) n m (HasBlock-counted b s.db h n) stored fits,
            ),
            refl,
          )
