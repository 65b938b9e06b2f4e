-- ===== src/Session.antt =====
-- backend/internal/session: connection tokens (connect id and PIN) and the life of a session row.
pub mod Table
pub mod Service
pub mod Mint
pub mod Handlers
pub mod Entry
