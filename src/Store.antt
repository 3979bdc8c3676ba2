-- ===== src/Store.antt =====
-- src/store.rs: the sharded store, its accounts and its eviction.
pub mod Buffers
pub mod Dash
pub mod Assoc
pub mod Entry
pub mod State
pub mod Laws
pub mod Access
pub mod Strings
pub mod Hashes
pub mod Balance
pub mod Quiet
pub mod Evict
pub mod Scan
pub mod View
