-- ===== src/Examples.antt =====
-- Each result at work on a small case.
mod Samples
pub mod Keys
pub mod Fields
pub mod Messages
pub mod Fifos
mod Settings
mod Services
mod Logs
pub mod Runs
pub mod Scans
pub mod Servers
pub mod Snapshots
pub mod Views
