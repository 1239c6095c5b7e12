-- ===== src/Realtime.antt =====
-- realtime/draw.gateway.ts.
pub mod Rooms
pub mod RateLimit
pub mod Connections
pub mod Drawing
pub mod Gateway
pub mod Exclusive
pub mod Sockets
