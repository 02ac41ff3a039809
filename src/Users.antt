-- ===== src/Users.antt =====
-- app/routers/users.py: profiles and blocks.
pub mod Profiles
pub mod Blocks
pub mod Search
mod Tests
