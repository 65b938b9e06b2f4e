-- ===== src/Recordings.antt =====
-- backend/internal/recordings: the metadata of recordings, and the URLs of their uploads.
pub mod Table
pub mod Service
pub mod Handlers
pub mod Presigner
