-- ===== src/Model/Samples.antt =====
-- Small tables for tests.
use secure_messenger.Prelude.{Text, codes, ℕ, true, false, none, some, [], ◌∷◌}
use secure_messenger.Model.{Db}
use secure_messenger.Model.Accounts.{User, DeviceStatus, new_only, Device}
use secure_messenger.Model.Chats.{group, since_join, Chat, owner, member, ChatMember}

abbrev pub account : ℕ → Text → User
account id login = record {
  id = id;
  login = login;
  username = login;
  display_name = none;
  bio = none;
  avatar_url = none;
  password_hash = [];
  password_salt = [];
  is_active = true;
  is_placeholder = false;
  created_at = 0;
}

abbrev pub alice : User
alice = account 1 (codes "alice")

abbrev pub bob : User
bob = account 2 (codes "bob")

abbrev pub carol : User
carol = account 3 (codes "carol")

-- A device with an identity key.
abbrev pub phone : ℕ → ℕ → Device
phone id user_id = record {
  id = id;
  user_id = user_id;
  name = codes "phone";
  created_at = 0;
  last_seen_at = 0;
  revoked_at = none;
  status = DeviceStatus.active;
  approved_by_device_id = none;
  approved_at = none;
  pairing_code_hash = none;
  pairing_expires_at = none;
  history_policy = new_only;
  identity_key = some (id ∷ []);
  identity_fingerprint = some id;
  identity_published_at = some 0;
}

abbrev pub team : Chat
team = record {
  id = 0;
  type = group;
  avatar_url = none;
  history_visibility = since_join;
  direct_key = none;
  created_by_user_id = 1;
  created_at = 0;
}

abbrev pub alice_owns : ChatMember
alice_owns = record { chat_id = 0; user_id = 1; role = owner; history_from_seq = 1; joined_at = 0 }

abbrev pub bob_joined : ChatMember
bob_joined = record { chat_id = 0; user_id = 2; role = member; history_from_seq = 1; joined_at = 0 }

-- Three users, two of them with a device, and a group of the first two.
abbrev pub small : Db
small = record {
  users = alice ∷ bob ∷ carol ∷ [];
  devices = phone 1 1 ∷ phone 2 2 ∷ [];
  refresh_sessions = [];
  security_events = [];
  user_blocks = [];
  chats = team ∷ [];
  chat_members = alice_owns ∷ bob_joined ∷ [];
  chat_invitations = [];
  key_packages = [];
  envelopes = [];
  media_objects = [];
  sticker_packs = [];
  stickers = [];
  subscriptions = [];
  next_user_id = 4;
  next_chat_id = 1;
  next_envelope_id = 1;
}
