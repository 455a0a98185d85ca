-- ===== src/Message.antt =====
-- shotover/src/message/mod.rs and the frames of shotover/src/frame/mod.rs.
pub mod Frame
pub mod State
pub mod Response
pub mod Caching
pub mod Errors
pub mod Presence
pub mod Samples
mod Tests
