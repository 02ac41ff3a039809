-- ===== src/Model.antt =====
-- The database of app/models.py: one list of rows for each table, in insertion order.
-- Time is a number of microseconds (UTC). An identifier that the program only compares or sorts
-- (a uuid, a token digest) is a number; the keys that the database hands out are counters.
pub mod Samples
pub mod Accounts
pub mod Chats
pub mod Mls
pub mod Media
use secure_messenger.Prelude.{ℕ, List}
use Accounts.{User, Device, RefreshSession, SecurityEvent, UserBlock}
use Chats.{Chat, ChatMember, ChatInvitation}
use Mls.{MlsKeyPackage, MlsEnvelope}
use Media.{MediaObject, StickerPack, Sticker, StickerPackSubscription}

pub record Db : Type 0 where
  pub users : List User
  pub devices : List Device
  pub refresh_sessions : List RefreshSession
  pub security_events : List SecurityEvent
  pub user_blocks : List UserBlock
  pub chats : List Chat
  pub chat_members : List ChatMember
  pub chat_invitations : List ChatInvitation
  pub key_packages : List MlsKeyPackage
  pub envelopes : List MlsEnvelope
  pub media_objects : List MediaObject
  pub sticker_packs : List StickerPack
  pub stickers : List Sticker
  pub subscriptions : List StickerPackSubscription
  pub next_user_id : ℕ
  pub next_chat_id : ℕ
  pub next_envelope_id : ℕ
