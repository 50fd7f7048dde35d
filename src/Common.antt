-- ===== src/Common.antt =====
-- src/common.rs: the data that every operation shares.
pub mod Error
pub mod Permission
pub mod Time
pub mod Attr
pub mod Keys
pub mod ReadDir
