-- ===== src/Files.antt =====
-- The abstract view of the service, and how the object stores stand for it.
pub mod Model
pub mod Represents
pub mod Writes
