-- ===== src/E2ee.antt =====
-- app/routers/e2ee.py: opaque MLS envelopes, key packages, device identities and security events.
pub mod Envelopes
pub mod KeyPackages
pub mod Identity
pub mod Directory
mod Tests
