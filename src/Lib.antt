-- ===== src/Lib.antt =====
-- dbfs: a file system whose inodes, directory entries and file contents are buckets and pairs of a
-- key-value database (jammdb). This is a model of its operations with what is proved of them.
--
-- How the parts interact. Every inode is a bucket named by its number in eight bytes. The operations
-- `dbfs_common_…` open a transaction of the database, read and write buckets, and commit; an error on
-- the way drops the transaction. The fuse and rvfs bindings call these operations. Beside them the
-- repository has a manager of transactions over a write-ahead log, which applies recorded operations
-- to a file system below, and an engine that keeps the metadata of the inodes in the database and the
-- contents in a log on the device; the inodes for vfscore (DbfsInode) stand on that engine.
--
-- The modules, with the code they model (paths from the repository's root):
--   Prelude   shared names; `Res` is a Rust result that may also be a panic, `Words` the wrap-around
--             of u64 and u32 in a release build, `Bits` the laws of bitwise and, `Run` and `Act`
--             code that changes a state and may fail, `Buffer` buffers of bytes
--   Bytes     the encodings of integers (the macros of src/lib.rs) and decimal texts
--   Common    src/common.rs, src/lib.rs and src/inode_common.rs: DbfsError, DbfsPermission,
--             DbfsFileType, DbfsTimeSpec, DbfsAttr, the keys of a bucket, SLICE_SIZE, the table of
--             directory listings
--   Access    src/inode.rs and src/attr.rs: checkout_access, creation_gid, clear_suid_sgid,
--             parse_xattr_namespace, xattr_access_check; `Spec` is the POSIX rule beside the code
--   Kv        jammdb as an interface: its operations with the laws that the code relies on.
--             `Cursor` adds begin_batch and the walk
--             over a bucket. `Kv/Memory` and `Kv/Cursor/Listed` are databases that meet the laws
--   Store     `Tx`, the steps inside a transaction; `Fs`, whole operations on the committed contents
--             and the counter DBFS_INODE_NUMBER; `Laws` and `Atomic`, the lemmas on them
--   Inode     src/inode.rs and src/link.rs: dbfs_common_attr, _lookup, _access, _readlink, _link,
--             _unlink, _rmdir, _create, _truncate, _fallocate and _rename. `Inode/Body` has the steps
--             of each transaction, `Inode` puts them together, `Inode/Row` says what a well-formed
--             bucket holds, and the other children prove what the operations do to such buckets
--   File      src/file.rs: dbfs_common_write; `Slices` and `Round` prove what one round of its loop does
--             to the bytes of the file, `Write` what the loop does, `Contents` the whole operation
--   Attr      src/attr.rs: dbfs_common_setxattr, _getxattr, _removexattr, _chmod, _chown, _utimens
--   Wal       src/wal.rs: WriteAheadLog over the trait WalStorage
--   Txn       src/transaction.rs and src/operation.rs: TransactionManager, TransactionOperation
--   LogManager  src/log_manager.rs: BlockDevice, LogManager, crc32
--   Engine    src/models.rs and src/tx_engine.rs: Extent, InodeMetadata, TransactionEngine. `Index` has
--             its transactions, `Inodes` and `Dentries` the operations on the index, `Data` those that
--             read and write contents; their children prove what the operations do
--   Vfs       src/rvfs_adapter.rs: DbfsInode over the engine, and what a mount writes
--   Super     src/fs_type.rs and init_db of src/fuse/mkfs.rs: dbfs_common_root_inode, _umount, _statfs,
--             dbfs_sync_fs, dbfs_create_simple_super_blk
--   FsCommon  src/fs_common.rs: dbfs_common_root_inode, _umount and _statfs for src/rvfs2
--   Tests     runs at concrete contents
--
-- How state and operations correspond. A bucket handle is the name of its bucket, looked up again at
-- each use; a transaction is a function from the contents that it sees to a result and the contents
-- that it leaves. `tx.commit()?` replaces the committed contents; a transaction that is dropped leaves
-- them. A `record` field has the name of the source's field. A u16, u32, u64 or usize is a natural
-- number, with the wrap-around of a release build written out; the i64 of a time of the engine is an
-- integer; a division by zero, an `unwrap` of
-- nothing and a slice out of range are panics. SLICE_SIZE is the one of the default feature.
--
-- Bounds and fuel. The decimal digits of n run on fuel n + 1, of which each step uses one and divides
-- n by ten. `recover` runs on a given fuel; above the number of records in the log it is enough, as
-- the theorem on replay states with its hypothesis. `read_from_log` runs on fuel one above the length of
-- the buffer: every round reads at least one byte. The loop
-- of `dbfs_common_write` runs on the same fuel: every round but that of an empty buffer writes at least
-- one byte. All other loops are structural.
--
-- Parameters. The database is a value of `Kv`; that it begins and commits every transaction is the
-- hypothesis `Serves`, where a theorem needs it. The storage of the log, the block device, serde_json, what
-- the allocator's memory holds when it is handed out, and the functions
-- `crate::common::dbfs_…` that src/operation.rs calls are parameters too.
--
-- Not modelled: reading file contents, opening files and listing directories (src/file.rs),
-- dbfs_common_listxattr, src/extend.rs, the root dentry and the list of super
-- blocks of src/fs_type.rs, the tree of dentries and the device adapters of src/rvfs_adapter.rs, the
-- bindings to fuse, rvfs, vfscore and alien (src/fuse, src/rvfs2, src/rvfs2_demo,
-- src/alien_integration), the locks, and log messages.
pub mod Prelude
pub mod Bytes
pub mod Common
pub mod Access
pub mod Kv
pub mod Store
pub mod Inode
pub mod Attr
pub mod Wal
pub mod Txn
pub mod Engine
pub mod LogManager
pub mod Vfs
pub mod Super
pub mod File
pub mod FsCommon
pub mod Tests
