-- ===== src/Tests.antt =====
-- Test data and instances of the theorems.
pub mod Memory
pub mod Shelves
pub mod Access
pub mod Flush
pub mod Buffers
pub mod Backends
pub mod Export
pub mod Unary
pub mod Hashes
pub mod Import
pub mod Sync
pub mod Sqlite
pub mod Rocks
pub mod Msg
pub mod Postgres
pub mod StoreTool
pub mod Collate
pub mod Json
pub mod Erasing
