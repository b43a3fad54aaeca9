-- ===== src/Remote.antt =====
-- src/remote: the signed WebSocket surface. Authentication of a request frame and its nonce at the
-- endpoint; the durable outbox, the route and the transport over them at the client.
pub mod Auth
pub mod Nonces
pub mod Replay
pub mod Outbox
pub mod Route
pub mod Transport
mod Tests
