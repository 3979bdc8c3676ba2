-- ===== src/Commands.antt =====
-- src/main.rs: the command handlers.
pub mod Words
pub mod Set
pub mod Expiry
pub mod Counter
pub mod Many
pub mod HashCommands
pub mod Balance
pub mod Run
pub mod ScanCommand
pub mod Flush
pub mod Visible
pub mod Promised
