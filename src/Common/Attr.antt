-- ===== src/Common/Attr.antt =====
-- `DbfsAttr` of src/common.rs: what the operations tell of an inode.
use dbfs.Prelude.{ℕ}
use dbfs.Common.Permission.{DbfsFileType}
use dbfs.Common.Time.{DbfsTimeSpec}

pub record DbfsAttr : Type 0 where
  pub ino : ℕ
  pub size : ℕ
  pub blocks : ℕ
  pub atime : DbfsTimeSpec
  pub mtime : DbfsTimeSpec
  pub ctime : DbfsTimeSpec
  pub crtime : DbfsTimeSpec
  pub kind : DbfsFileType
  pub perm : ℕ
  pub nlink : ℕ
  pub uid : ℕ
  pub gid : ℕ
  pub rdev : ℕ
  pub blksize : ℕ
  pub padding : ℕ
  pub flags : ℕ
