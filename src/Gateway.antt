-- ===== src/Gateway.antt =====
-- internal/gateway: the public API over HTTP, and the hub that passes events on to browsers and phones.
pub mod Hub
pub mod Http
pub mod Api
pub mod Server
