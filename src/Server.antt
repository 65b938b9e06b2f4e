-- ===== src/Server.antt =====
-- backend/cmd/server: how the parts of the backend call each other.
pub mod RoomEnded
pub mod Startup
