-- ===== src/Tests.antt =====
-- Concrete runs of the modelled program.
mod Auth
mod Device
mod Wal
mod Store
mod Model
mod Names
mod Markdown
mod Service
mod Progress
