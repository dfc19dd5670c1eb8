-- ===== src/Vault.antt =====
-- vault/src: the credential vault.
pub mod RateBucket
mod Tests
