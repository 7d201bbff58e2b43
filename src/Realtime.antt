-- ===== src/Realtime.antt =====
-- internal/realtime: the events that two devices exchange, the hub that knows who is connected,
-- and the state that the server keeps for each connection.
pub mod Events
pub mod Hub
pub mod Client
pub mod System
