-- ===== src/Security.antt =====
-- security/凭证.go: signed tokens.
pub mod Base64
pub mod Token
mod Tests
