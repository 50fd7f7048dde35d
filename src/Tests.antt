-- ===== src/Tests.antt =====
-- Runs at concrete contents: a database in memory with a root directory.
mod Mounted
mod Vfs
mod Super
mod Disk
mod Create
mod Entry
mod Attr
mod Txn
mod Rules
mod Engine
mod LogManager
mod Contents
