-- ===== src/Media.antt =====
-- app/routers/media.py: encrypted attachments and sticker packs.
pub mod Attachments
pub mod Objects
pub mod Stickers
mod Tests
