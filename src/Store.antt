-- ===== src/Store.antt =====
-- The PostgreSQL schema (migrations/) that the repositories read and write, one record for a row
-- of each table, and transactions over it.
mod Rows
pub mod Tx
pub mod Query
pub use Rows.*
