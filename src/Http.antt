-- ===== src/Http.antt =====
-- The HTTP/1.x request parser of the Wing transport, wing_http.go.
pub mod Lexical
pub mod Headers
pub mod Request
pub mod HeaderMap
pub mod Response
pub mod Adapter
mod Tests
pub mod Classify
