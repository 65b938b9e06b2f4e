-- ===== src/Crypto.antt =====
-- backend/internal/crypto: hashing and verification of passwords.
pub mod Password
