-- ===== src/Mongox.antt =====
-- mongox/: filters, and the fields that every document has.
pub mod Filter
pub mod Document
pub mod ObjectId
pub mod Collection
mod Tests
