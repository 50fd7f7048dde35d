-- ===== src/Common/ReadDir.antt =====
-- GLOBAL_READDIR_TABLE of src/common.rs: where a directory listing goes on.
use dbfs.Prelude.{ℕ, Option, none, some, Bytes, ◌==◌, if◌then◌else◌}

pub record ReadDirInfo : Type 0 where
  pub offset : ℕ
  pub key : Bytes

-- The `BTreeMap`, of which the code uses only `insert`, `remove` and `get`.
abbrev pub ReadDirTable : Type 0
ReadDirTable = ℕ → Option ReadDirInfo

unfoldable pub push_readdir_table : ℕ → ReadDirInfo → ReadDirTable → ReadDirTable
push_readdir_table ino info table j = if ino == j then some info else table j

-- What is removed, and the table without it.
unfoldable pub pop_readdir_table : ℕ → ReadDirTable → Option ReadDirInfo × ReadDirTable
pop_readdir_table ino table = (table ino, λ j. if ino == j then none else table j)

unfoldable pub get_readdir_table : ℕ → ReadDirTable → Option ReadDirInfo
get_readdir_table ino table = table ino
