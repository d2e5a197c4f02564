-- ===== src/Meta.antt =====
-- src/backend/meta.rs: the records, the checks on them, the values of the stores, the payload.
pub mod Records
pub mod Check
pub mod Payload
