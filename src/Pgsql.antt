-- ===== src/Pgsql.antt =====
-- pgsql/: the SQL builders and the table operations over PostgreSQL.
pub mod Sql
pub mod Where
pub mod Update
pub mod Result
pub mod Types
pub mod Scan
pub mod Table
pub mod Driver
pub mod Strict
pub mod Insert
pub mod Find
pub mod Page
pub mod Change
pub mod Operations
mod Tests
