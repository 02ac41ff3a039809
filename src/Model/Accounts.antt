-- ===== src/Model/Accounts.antt =====
-- app/models.py: accounts, devices, refresh sessions, security events and blocks.
use secure_messenger.Prelude.{Text, ℕ, Bool, true, false, Option, List}

pub record User : Type 0 where
  pub id : ℕ
  pub login : Text
  pub username : Text
  pub display_name : Option Text
  pub bio : Option Text
  pub avatar_url : Option Text
  pub password_hash : Text
  pub password_salt : List ℕ
  pub is_active : Bool
  pub is_placeholder : Bool
  pub created_at : ℕ

pub data DeviceStatus : Type 0 where
  pending active revoked : DeviceStatus

pub data HistoryPolicy : Type 0 where
  new_only transfer_requested : HistoryPolicy

pub record Device : Type 0 where
  pub id : ℕ
  pub user_id : ℕ
  pub name : Text
  pub created_at : ℕ
  pub last_seen_at : ℕ
  pub revoked_at : Option ℕ
  pub status : DeviceStatus
  pub approved_by_device_id : Option ℕ
  pub approved_at : Option ℕ
  pub pairing_code_hash : Option ℕ
  pub pairing_expires_at : Option ℕ
  pub history_policy : HistoryPolicy
  pub identity_key : Option (List ℕ)
  pub identity_fingerprint : Option ℕ
  pub identity_published_at : Option ℕ

-- `status == "active"`
abbrev pub is_active_status : DeviceStatus → Bool
is_active_status DeviceStatus.active = true
is_active_status _ = false

-- `status == "pending"`
abbrev pub is_pending_status : DeviceStatus → Bool
is_pending_status DeviceStatus.pending = true
is_pending_status _ = false

-- `status == "revoked"`
abbrev pub is_revoked_status : DeviceStatus → Bool
is_revoked_status DeviceStatus.revoked = true
is_revoked_status _ = false

pub record RefreshSession : Type 0 where
  pub id : ℕ
  pub user_id : ℕ
  pub device_id : ℕ
  pub refresh_token_hash : ℕ
  pub device_name : Text
  pub created_at : ℕ
  pub expires_at : ℕ
  pub revoked_at : Option ℕ

pub data EventType : Type 0 where
  fingerprint_changed : EventType

pub record SecurityEvent : Type 0 where
  pub id : ℕ
  pub recipient_user_id : ℕ
  pub event_type : EventType
  pub subject_user_id : ℕ
  pub device_id : Option ℕ
  pub fingerprint : Option ℕ
  pub created_at : ℕ
  pub acknowledged_at : Option ℕ

pub record UserBlock : Type 0 where
  pub blocker_id : ℕ
  pub blocked_id : ℕ
  pub created_at : ℕ
