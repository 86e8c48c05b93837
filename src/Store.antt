-- ===== src/Store.antt =====
-- The storage layer of mind-palace/store.
pub mod Leases
pub mod Exclusion
pub mod Plugin
pub mod Memory
pub mod Multi
pub mod Optimistic
pub mod Fanning
pub mod MemoryLaws
