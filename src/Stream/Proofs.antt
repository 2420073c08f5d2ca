-- ===== src/Stream/Proofs.antt =====
-- What the parts of the WebSocket client guarantee.
pub mod Delays
pub mod Connecting
pub mod ListenerMap
pub mod Listeners
pub mod Matching
pub mod Routing
pub mod Requests
pub mod Closing
pub mod GivingUp
