-- ===== src/Signaling.antt =====
-- backend/internal/signaling: the WebSocket relay between the two peers of a session.
pub mod Role
pub mod Channel
pub mod Presence
pub mod RedisPresence
pub mod RedisFanout
pub mod Hub
pub mod Handler
pub mod Lifecycle
