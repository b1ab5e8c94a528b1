-- ===== src/Security.antt =====
-- app/security: secrets at rest.
pub mod Encryption
pub mod Patterns
pub mod Redaction
pub mod Logged
