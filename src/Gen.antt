-- ===== src/Gen.antt =====
-- gen.go: the generator of services.
pub mod Scan
pub mod Lines
pub mod RoundTrip
pub mod Templates
pub mod Files
mod Tests
