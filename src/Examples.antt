-- ===== src/Examples.antt =====
-- Tests, and each property at a concrete input.
pub mod Listing
mod Pages
mod Realm
pub mod Backend
pub mod Shelf
mod Calls
mod Tasks
mod Working
pub mod Objects
pub mod Service
