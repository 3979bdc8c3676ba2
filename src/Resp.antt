-- ===== src/Resp.antt =====
-- src/protocol.rs: the RESP parser and writer.
pub mod Decimal
pub mod Writer
pub mod Parser
pub mod RoundTrip
pub mod Frames
pub mod Arrival
pub mod Stream
