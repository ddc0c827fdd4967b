-- ===== src/Ginx.antt =====
-- ginx/: parameters, handlers and the answers of a request. `V` stands for values of any type.
pub mod Answer
pub mod Params
mod Tests
