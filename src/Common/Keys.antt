-- ===== src/Common/Keys.antt =====
-- The keys of an inode's bucket: constant texts, `data:` with a name for a directory entry, and
-- `zdata:` with a block number for a slice of a file.
use dbfs.Prelude.{ℕ, ◌*◌, ◌++◌, Bytes, codes}
use dbfs.Bytes.{be_bytes}

-- `generate_data_key_with_number`
unfoldable pub generate_data_key_with_number : ℕ → Bytes
generate_data_key_with_number num = codes "zdata:" ++ be_bytes 4 num

-- `generate_data_key`
abbrev pub generate_data_key : Bytes → Bytes
generate_data_key value = codes "data:" ++ value

-- The name of an inode's bucket, `ino.to_be_bytes()`.
unfoldable pub ino_key : ℕ → Bytes
ino_key ino = be_bytes 8 ino

-- The constant keys of an inode's bucket.
abbrev pub k_size : Bytes
k_size = codes "size"

abbrev pub k_mode : Bytes
k_mode = codes "mode"

abbrev pub k_hard_links : Bytes
k_hard_links = codes "hard_links"

abbrev pub k_uid : Bytes
k_uid = codes "uid"

abbrev pub k_gid : Bytes
k_gid = codes "gid"

abbrev pub k_block_size : Bytes
k_block_size = codes "block_size"

abbrev pub k_atime : Bytes
k_atime = codes "atime"

abbrev pub k_mtime : Bytes
k_mtime = codes "mtime"

abbrev pub k_ctime : Bytes
k_ctime = codes "ctime"

abbrev pub k_dev : Bytes
k_dev = codes "dev"

abbrev pub k_data : Bytes
k_data = codes "data"

-- The super block's bucket and two of its keys.
abbrev pub super_blk : Bytes
super_blk = codes "super_blk"

abbrev pub k_disk_size : Bytes
k_disk_size = codes "disk_size"

abbrev pub k_continue_number : Bytes
k_continue_number = codes "continue_number"

-- SLICE_SIZE under the default feature, `sli32k`.
unfoldable pub slice_size : ℕ
slice_size = 8192 * 2 * 2
