-- ===== src/Chats.antt =====
-- app/routers/chats.py: direct chats, groups and invitations.
pub mod Direct
pub mod Groups
pub mod Effects
pub mod Requests
pub mod Ownership
pub mod Demotion
pub mod Expiry
pub mod Listings
mod Tests
pub mod Valid
pub mod Owners
pub mod Invitations
