-- ===== src/Drivers.antt =====
-- src/drivers: the storage backends.
pub mod Sqlite
pub mod Redis
