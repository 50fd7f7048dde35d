-- ===== src/Inode/Body.antt =====
-- The transactions of src/inode.rs and src/link.rs, one function for each.
pub mod Attr
pub mod Entry
pub mod Create
pub mod Truncate
pub mod Rename
