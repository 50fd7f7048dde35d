-- ===== src/Tests/Contents.antt =====
-- Bytes written across two slices of the file `note`, of which the first is stored.
use dbfs.Prelude.{ℕ, ◌≡◌, refl, arith, some, ◌∷◌, [], Bytes, length, replicate, length-replicate}
use dbfs.Prelude.Res.{ok}
use dbfs.Bytes.{be_bytes}
use dbfs.Common.Keys.{ino_key, slice_size, k_size}
use dbfs.Kv.Memory.{Disk, memory}
use dbfs.Store.Tx.{State}
use dbfs.File.{dbfs_common_write}
use dbfs.File.Round.{IsSliced, stored, stored-IsSliced}
use dbfs.File.Contents.{FileWritten, dbfs_common_write-FileWritten}
use dbfs.Tests.Disk.{full_state, memory-Serves}

abbrev fresh : ℕ → Bytes
fresh n = replicate slice_size 7

fresh-full : (n : ℕ) → length (fresh n) ≡ slice_size
fresh-full n = length-replicate slice_size 7

note-IsSliced : IsSliced fresh memory 2 full_state.db
unfolding ino_key dbfs.Bytes.be_bytes dbfs.Common.Keys.generate_data_key_with_number
note-IsSliced = record { there = refl; whole = λ i value less e. cc }

abbrev sliced_disk : Disk
sliced_disk = stored fresh memory 2 0 5 (1 ∷ 2 ∷ []) full_state.db

sliced_disk-IsSliced : IsSliced fresh memory 2 sliced_disk
unfolding slice_size
sliced_disk-IsSliced =
    stored-IsSliced fresh memory 2 0 5 (1 ∷ 2 ∷ []) full_state.db (omega arith) (omega arith)
      (fresh-full 0) note-IsSliced

abbrev sliced_state : State Disk
sliced_state = record full_state { db = sliced_disk }

size_at : memory.get_kv (ino_key 2) k_size sliced_disk ≡ some (be_bytes 8 0)
unfolding ino_key dbfs.Bytes.be_bytes dbfs.Common.Keys.generate_data_key_with_number
size_at = refl

dbfs_common_write-FileWritten_example :
    (d' : Disk) × (dbfs_common_write fresh memory 2 (1 ∷ 2 ∷ 3 ∷ 4 ∷ []) 32766 sliced_state
      ≡ (ok (some 4), record sliced_state { db = d' }))
    × FileWritten fresh memory 2 (1 ∷ 2 ∷ 3 ∷ 4 ∷ []) 32766 0 sliced_disk d'
dbfs_common_write-FileWritten_example =
    dbfs_common_write-FileWritten fresh memory 2 (1 ∷ 2 ∷ 3 ∷ 4 ∷ []) 32766 (omega arith)
      memory-Serves fresh-full 0 (omega arith) sliced_state size_at sliced_disk-IsSliced
