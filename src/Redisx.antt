-- ===== src/Redisx.antt =====
-- redisx/: what is kept in Redis, and how.
pub mod Simple
pub mod Cacher
pub mod Flight
pub mod Queue
mod Tests
