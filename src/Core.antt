-- ===== src/Core.antt =====
-- The transactions of src/backend/core.rs.
pub mod Entry
pub mod Read
pub mod Write
pub mod Remove
pub mod Move
pub mod Transaction
pub mod Scan
pub mod Ops
