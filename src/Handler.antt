-- ===== src/Handler.antt =====
-- internal/handler: the HTTP handlers, their middleware and the address of a client.
pub mod Proxy
pub mod Http
pub mod Middleware
pub mod Api
pub mod Routes
pub mod Service
pub mod Sample
mod Tests
