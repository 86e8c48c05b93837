-- ===== src/Wal.antt =====
-- The write-ahead log of mind-palace/session/wal/wal.go.
pub mod Log
pub mod Reading
pub mod Flushing
pub mod Pending
