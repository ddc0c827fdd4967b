-- ===== src/Syncx.antt =====
-- syncx/: what goroutines share.
pub mod SingleFlight
pub mod ResourceManager
pub mod WorkerPool
mod Tests
