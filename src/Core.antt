-- ===== src/Core.antt =====
-- src/core: errors, expiry, physical keys and the auto-index manager.
pub mod Failure
pub mod Expiry
pub mod Key
pub mod AutoIndex
mod Tests
pub mod TableSchema
