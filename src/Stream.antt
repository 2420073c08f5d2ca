-- ===== src/Stream.antt =====
-- Package stream: the WebSocket client.
pub mod Messages
pub mod State
pub mod Match
pub mod Connection
pub mod Registry
pub mod Dispatch
pub mod Post
pub mod Reconnect
pub mod Setup
pub mod Pumps
pub mod Calls
pub mod Proofs
