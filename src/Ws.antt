-- ===== src/Ws.antt =====
-- The WebSocket package, contrib/ws.
pub mod Frame
pub mod Close
pub mod Conn
