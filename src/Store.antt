-- ===== src/Store.antt =====
-- Transactions over the database, and the state between transactions: the committed contents and the
-- counter DBFS_INODE_NUMBER (src/inode_common.rs).
pub mod Tx
pub mod Fs
pub mod Laws
pub mod Atomic
