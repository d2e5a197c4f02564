-- ===== src/Connection.antt =====
-- src/backend/connection.rs: prefixes and deletion by prefix, the connection cache.
pub mod Utf8
pub mod Prefix
pub mod Cache
pub mod Locks
pub mod Open
