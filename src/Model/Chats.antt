-- ===== src/Model/Chats.antt =====
-- app/models.py: chats, their members and the invitations to groups.
use secure_messenger.Prelude.{Text, ℕ, Bool, true, false, Option}

pub data ChatType : Type 0 where
  dm group : ChatType

pub data HistoryVisibility : Type 0 where
  all since_join : HistoryVisibility

-- `type == "group"`
abbrev pub is_group_type : ChatType → Bool
is_group_type dm = false
is_group_type group = true

-- `type == "dm"`
abbrev pub is_dm_type : ChatType → Bool
is_dm_type dm = true
is_dm_type group = false

-- `a == b` on the history settings
abbrev pub visibility_eq : HistoryVisibility → HistoryVisibility → Bool
visibility_eq all all = true
visibility_eq since_join since_join = true
visibility_eq _ _ = false

-- `direct_key` is the text "low:high"; its two numbers stand for it.
pub record DirectKey : Type 0 where
  pub low : ℕ
  pub high : ℕ

pub record Chat : Type 0 where
  pub id : ℕ
  pub type : ChatType
  pub avatar_url : Option Text
  pub history_visibility : HistoryVisibility
  pub direct_key : Option DirectKey
  pub created_by_user_id : ℕ
  pub created_at : ℕ

pub data Role : Type 0 where
  owner admin member : Role

-- `role == "owner"`
abbrev pub is_owner : Role → Bool
is_owner owner = true
is_owner _ = false

-- `role == "admin"`
abbrev pub is_admin : Role → Bool
is_admin admin = true
is_admin _ = false

-- `a == b` on roles
abbrev pub role_eq : Role → Role → Bool
role_eq owner r = is_owner r
role_eq admin r = is_admin r
role_eq member member = true
role_eq member _ = false

pub record ChatMember : Type 0 where
  pub chat_id : ℕ
  pub user_id : ℕ
  pub role : Role
  pub history_from_seq : ℕ
  pub joined_at : ℕ

pub data InvitationStatus : Type 0 where
  pending accepted revoked : InvitationStatus

-- `status == "pending"`
abbrev pub is_pending : InvitationStatus → Bool
is_pending pending = true
is_pending _ = false

pub record ChatInvitation : Type 0 where
  pub id : ℕ
  pub chat_id : ℕ
  pub inviter_user_id : ℕ
  pub invitee_user_id : ℕ
  pub status : InvitationStatus
  pub created_at : ℕ
  pub expires_at : ℕ
