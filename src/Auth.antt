-- ===== src/Auth.antt =====
-- app/auth.py, app/dependencies.py and app/routers/auth.py: passwords, sessions and devices.
pub mod Passwords
pub mod Dependencies
pub mod Tokens
pub mod Twofa
pub mod Devices
pub mod Registration
pub mod Requests
mod Tests
