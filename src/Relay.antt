-- ===== src/Relay.antt =====
-- The relay between a client and an upstream websocket: internal/app/websocket_relay.go.
pub mod State
pub mod Downstream
pub mod Rejection
pub mod Upstream
pub mod Writes
pub mod Flow
pub mod Upheld
pub mod Order
pub mod Verdict
