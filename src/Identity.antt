-- ===== src/Identity.antt =====
-- backend/internal/identity: users, their passwords, and the tokens that they hold.
pub mod Table
pub mod Service
pub mod Handlers
