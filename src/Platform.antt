-- ===== src/Platform.antt =====
-- What the backend uses and does not implement: Redis, UUIDs, JSON, random numbers. Each is a record
-- of operations with the documented behaviour that the code relies on.
pub mod Redis
pub mod Uuid
pub mod Jwt
