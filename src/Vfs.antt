-- ===== src/Vfs.antt =====
-- src/rvfs_adapter.rs: the methods of DbfsInode, over the engine that the inodes share. The types of
-- vfscore are not part of the repository: of each, the cases and fields that the code gives stand here.

pub mod Names
pub mod Create
pub mod Rename
pub mod Unlink
pub mod Mount
use dbfs.Prelude.{
  ℕ, ◌-◌, Bool, true, false, Option, none, some, Bytes, length, bit_and, bit_or, ltb, ◌==◌,
  if◌then◌else◌,
}
use dbfs.Prelude.Res.{Res, ok, err, panic, guard, ok_or}
use dbfs.Prelude.Act.{Act, pure, lift, ◌>>=◌, ◌>>◌, or_err}
use dbfs.Prelude.Words.{ℤ}
use dbfs.Common.Error.{DbfsResult}
use dbfs.Kv.{Kv}
use dbfs.Kv.Cursor.{Cursor}
use dbfs.Engine.{InodeMetadata}
use dbfs.Engine.Index.{Serde, TransactionEngine}
use dbfs.Engine.Inodes.{allocate_inode, update_metadata, get_metadata, truncate_file, delete_inode}
use dbfs.Engine.Dentries.{add_dentry, lookup_dentry, list_dentries, delete_dentry}
use dbfs.Engine.Data.{write_file_transactional, read_file}
use dbfs.LogManager.{BlockDevice}

pub data VfsError : Type 0 where
  invalid io_error not_dir no_entry not_empty : VfsError

pub data VfsNodeType : Type 0 where
  file dir unknown : VfsNodeType

pub record VfsDirEntry : Type 0 where
  pub ino : ℕ
  pub ty : VfsNodeType
  pub name : Bytes

pub record VfsFileStat : Type 0 where
  pub st_size : ℕ
  pub st_ino : ℕ
  pub st_mode : ℕ
  pub st_nlink : ℕ
  pub st_uid : ℕ
  pub st_gid : ℕ
  pub st_atime : ℤ
  pub st_mtime : ℤ
  pub st_ctime : ℤ

-- The fields of InodeAttr that `set_attr` reads, the times by their seconds.
pub record InodeAttr : Type 0 where
  pub mode : ℕ
  pub size : ℕ
  pub atime : ℤ
  pub mtime : ℤ

-- `(mode & 0o170000) == 0o040000`
unfoldable pub is_dir : ℕ → Bool
is_dir mode = bit_and mode 0o170000 == 0o040000

abbrev node_type : ℕ → VfsNodeType
node_type mode = if is_dir mode then dir else file

unfoldable pub stat_of : ℕ → InodeMetadata → VfsFileStat
stat_of ino meta = record {
  st_size = meta.size;
  st_ino = ino;
  st_mode = meta.mode;
  st_nlink = meta.nlink;
  st_uid = 0;
  st_gid = 0;
  st_atime = meta.atime;
  st_mtime = meta.mtime;
  st_ctime = meta.mtime;
}

-- One link less, but not below none.
unfoldable pub fewer_links : InodeMetadata → InodeMetadata
fewer_links meta = record meta { nlink = if ltb 0 meta.nlink then meta.nlink - 1 else meta.nlink }

-- The inode numbers stand for the DbfsInode values, which share the engine and the super block.
module _ (K : Kv) (C : Cursor K) (D : BlockDevice) (S : Serde) where
  abbrev pub Vfs : Type 0 → Type 0
  Vfs A = Act VfsError (TransactionEngine K D) A

  unfoldable pub write_at : ℕ → ℕ → Bytes → Vfs ℕ
  write_at ino offset buf = do
    or_err io_error (write_file_transactional K C D S ino offset buf)
    pure (length buf)

  unfoldable pub read_at : ℕ → ℕ → Bytes → Vfs (ℕ × Bytes)
  read_at ino offset buf = or_err io_error (read_file K C D S ino offset buf)

  abbrev entry_of : Option (Bytes × ℕ) → Vfs (Option VfsDirEntry)
  entry_of none = pure none
  entry_of (some (name, ino)) = do
    child_meta ← or_err io_error (get_metadata K C D S ino)
    pure (some (record { ino = ino; ty = node_type child_meta.mode; name = name }))

  unfoldable pub readdir : (Bytes → Bool) → ℕ → ℕ → Vfs (Option VfsDirEntry)
  unfolding is_dir
  readdir is_text ino start_index = do
    meta ← or_err io_error (get_metadata K C D S ino)
    lift (guard (is_dir meta.mode) not_dir)
    entry ← or_err io_error (list_dentries K C D is_text ino start_index)
    entry_of entry

  abbrev perm_of : DbfsResult InodeMetadata → Res VfsError ℕ
  perm_of (ok meta) = ok (bit_and meta.mode 0o777)
  perm_of (err e) = ok 0
  perm_of panic = panic

  -- The permission bits, as a number.
  unfoldable pub node_perm : ℕ → Vfs ℕ
  node_perm ino s = let out = get_metadata K C D S ino s in (perm_of out.0, out.1)

  unfoldable pub get_attr : ℕ → Vfs VfsFileStat
  unfolding stat_of
  get_attr ino = do meta ← or_err io_error (get_metadata K C D S ino); pure (stat_of ino meta)

  unfoldable pub set_attr : ℕ → InodeAttr → Vfs (Unit {0})
  set_attr ino attr = do
    meta ← or_err io_error (get_metadata K C D S ino)
    or_err io_error (
        update_metadata K C D S (record meta {
          mode = attr.mode;
          size = attr.size;
          atime = attr.atime;
          mtime = attr.mtime;
        }))

  abbrev type_of : DbfsResult InodeMetadata → Res VfsError VfsNodeType
  type_of (ok meta) = ok (node_type meta.mode)
  type_of (err e) = ok unknown
  type_of panic = panic

  unfoldable pub inode_type : ℕ → Vfs VfsNodeType
  unfolding is_dir
  inode_type ino s = let out = get_metadata K C D S ino s in (type_of out.0, out.1)

  -- A new inode of the mode, and the entry for it.
  unfoldable pub add_inode : ℕ → Bytes → ℕ → Vfs ℕ
  add_inode ino name mode = do
    new_ino ← or_err io_error (allocate_inode K C D S mode)
    or_err io_error (add_dentry K C D ino name new_ino)
    pure new_ino

  unfoldable pub create : ℕ → Bytes → ℕ → Vfs ℕ
  unfolding add_inode
  create ino name perm = add_inode ino name (bit_or 0o100000 perm)

  unfoldable pub mkdir : ℕ → Bytes → ℕ → Vfs ℕ
  unfolding add_inode
  mkdir ino name perm = add_inode ino name (bit_or 0o040000 perm)

  unfoldable pub lookup : ℕ → Bytes → Vfs ℕ
  lookup ino name = or_err no_entry (lookup_dentry K C D ino name)

  unfoldable pub drop_inode : ℕ → InodeMetadata → Vfs (Unit {0})
  drop_inode child_ino child_meta =
      if child_meta.nlink == 0
      then or_err io_error (delete_inode K C D child_ino)
      else or_err io_error (update_metadata K C D S child_meta)

  unfoldable pub unlink : ℕ → Bytes → Vfs (Unit {0})
  unfolding fewer_links drop_inode
  unlink ino name = do
    child_ino ← or_err no_entry (lookup_dentry K C D ino name)
    or_err io_error (delete_dentry K C D ino name)
    child_meta ← or_err io_error (get_metadata K C D S child_ino)
    drop_inode child_ino (fewer_links child_meta)

  abbrev is_none : {A : Type 0} → Option A → Bool
  is_none none = true
  is_none (some a) = false

  unfoldable pub rmdir : (Bytes → Bool) → ℕ → Bytes → Vfs (Unit {0})
  unfolding is_dir
  rmdir is_text ino name = do
    child_ino ← or_err no_entry (lookup_dentry K C D ino name)
    child_meta ← or_err io_error (get_metadata K C D S child_ino)
    lift (guard (is_dir child_meta.mode) not_dir)
    first ← or_err io_error (list_dentries K C D is_text child_ino 0)
    lift (guard (is_none first) not_empty)
    or_err io_error (delete_dentry K C D ino name)
    or_err io_error (delete_inode K C D child_ino)

  unfoldable pub truncate : ℕ → ℕ → Vfs (Unit {0})
  truncate ino len = or_err io_error (truncate_file K C D S ino len)

  -- `new_parent` is missing if the parent that was given is no DbfsInode.
  unfoldable pub rename_to : ℕ → Bytes → Option ℕ → Bytes → Vfs (Unit {0})
  rename_to ino old_name new_parent new_name = do
    child ← or_err no_entry (lookup_dentry K C D ino old_name)
    parent ← lift (ok_or new_parent invalid)
    or_err io_error (add_dentry K C D parent new_name child)
    or_err io_error (delete_dentry K C D ino old_name)
