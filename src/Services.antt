-- ===== src/Services.antt =====
-- app/services/: the stores that live in the memory of the server.
pub mod SessionStore
pub mod ObjectStorage
pub mod RedisStore
pub mod Realtime
pub mod RateLimit
mod Tests
