-- ===== src/Store.antt =====
-- rpa_platform/storage/sqlite_store.py: the platform's SQLite store. Each child has the methods for
-- one group of tables, and its own children what is proved of them.
pub mod Rows
pub mod Exec
pub mod Context
pub mod Flows
pub mod Tasks
pub mod Robots
