-- ===== src/Aof.antt =====
-- src/aof.rs: the append-only file, its records, its replay and its rewrite.
pub mod Frame
pub mod Reader
pub mod Cut
pub mod Durable
pub mod History
pub mod Log
pub mod Policy
pub mod Progress
pub mod Replay
pub mod Rewrite
pub mod RoundTrip
pub mod Snapshot
