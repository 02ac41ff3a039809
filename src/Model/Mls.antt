-- ===== src/Model/Mls.antt =====
-- app/models.py: MLS key packages and envelopes, whose contents the server never parses.
use secure_messenger.Prelude.{ℕ, Bool, true, false, Option, List}

pub record MlsKeyPackage : Type 0 where
  pub id : ℕ
  pub device_id : ℕ
  pub key_package : List ℕ
  pub cipher_suite : ℕ
  pub created_at : ℕ
  pub expires_at : ℕ
  pub claimed_at : Option ℕ
  pub claimed_by_device_id : Option ℕ

pub data ContentType : Type 0 where
  application commit proposal welcome : ContentType

-- `content_type == "welcome"`
abbrev pub is_welcome : ContentType → Bool
is_welcome ContentType.welcome = true
is_welcome _ = false

pub record MlsEnvelope : Type 0 where
  pub id : ℕ
  pub chat_id : ℕ
  pub sender_device_id : ℕ
  pub recipient_device_id : Option ℕ
  pub protocol_version : ℕ
  pub epoch : ℕ
  pub content_type : ContentType
  pub payload : List ℕ
  pub message_hash : ℕ
  pub created_at : ℕ
