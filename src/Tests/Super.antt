-- ===== src/Tests/Super.antt =====
-- A new file system in an empty database, and an unmount of it.
use dbfs.Prelude.{◌≡◌, refl, arith}
use dbfs.Prelude.Res.{ok, panic}
use dbfs.Bytes.{be_bytes}
use dbfs.Common.Keys.{super_blk}
use dbfs.Kv.Memory.{Disk, empty_disk, memory}
use dbfs.Store.Tx.{State}
use dbfs.FsCommon.{dbfs_common_root_inode}
use dbfs.FsCommon.Root.{root_inode-lost}
use dbfs.Super.{k_magic, k_blk_size, dbfs_common_umount, dbfs_sync_fs}
use dbfs.Super.Mount.{HasBlock, Remounts, umount-mount}
use dbfs.Super.Root.{new_block, FileSystemMade, init_db-FileSystemMade}
use dbfs.Tests.Disk.{noon, memory-Serves}

abbrev block_disk : Disk
block_disk = memory.with_kv super_blk k_magic (be_bytes 4 1111) (
    memory.with_kv super_blk k_blk_size (be_bytes 4 32768)
      (memory.with_bucket super_blk empty_disk))

abbrev block_state : State Disk
block_state = record { db = block_disk; next_inode = 12 }

block_disk-HasBlock : HasBlock memory new_block block_disk
block_disk-HasBlock = record {
  there = refl;
  block_size_at = refl;
  magic_at = refl;
  block_size_fits = omega arith;
  magic_fits = omega arith;
}

umount-mount_example :
    Remounts memory new_block block_state (dbfs_common_umount memory block_state)
    × (dbfs_sync_fs memory block_state ≡ (ok tt, (dbfs_common_umount memory block_state).1))
umount-mount_example =
    umount-mount memory memory-Serves new_block block_state block_disk-HasBlock (omega arith)

init_db-FileSystemMade_example :
    FileSystemMade memory 16777216 0 0 noon (record { db = empty_disk; next_inode = 1 })
init_db-FileSystemMade_example =
    init_db-FileSystemMade memory memory-Serves 16777216 0 0 noon
      (record { db = empty_disk; next_inode = 1 }) refl refl refl

abbrev empty_state : State Disk
empty_state = record { db = empty_disk; next_inode = 1 }

root_inode-lost_example :
    (dbfs_common_root_inode memory 0 0 noon empty_state
      ≡ (ok 1, record empty_state { next_inode = 2 }))
    × (dbfs_common_root_inode memory 0 0 noon (record empty_state { next_inode = 2 })
        ≡ (panic, record empty_state { next_inode = 3 }))
root_inode-lost_example = root_inode-lost memory empty_state 0 0 noon memory-Serves refl refl
