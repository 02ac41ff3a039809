-- ===== src/Auth/Tokens.antt =====
-- app/routers/auth.py: login, refresh and logout. Access tokens live in the session store, refresh
-- tokens as digests in the table of refresh sessions.
pub mod Limit
pub mod Rotation
use secure_messenger.Prelude.{
  leb, ◌==◌, if◌then◌else◌, is_none, is_some, find, count, update_where, Text, strip, ℕ, ◌+◌, Bool,
  ◌&&◌, ◌||◌, not, Option, none, some, [], ◌∷◌, ◌++◌,
}
use secure_messenger.Model.{Db}
use secure_messenger.Model.Accounts.{
  User, DeviceStatus, new_only, Device, is_active_status, RefreshSession,
}
use secure_messenger.Http.{
  status, Action, pure, gets, or_raise, raise_if, modify, commit, rollback, ◌>>=◌, ◌>>◌, when,
}
use secure_messenger.Queries.{find_active_user, get_user, get_device}
use secure_messenger.Auth.Passwords.{Hasher, verify_password}

abbrev pub max_active_devices : ℕ
max_active_devices = 5

pub record Credentials : Type 0 where
  pub login : Text
  pub password : Text
  pub device_name : Text

abbrev pub is_active_device_of : ℕ → Device → Bool
is_active_device_of user_id d =
    d.user_id == user_id && is_active_status d.status && is_none d.revoked_at

-- select(func.count(Device.id)).where(...)
unfoldable pub active_devices : ℕ → Db → ℕ
active_devices user_id db = count (is_active_device_of user_id) db.devices

unfoldable pub new_device : ℕ → ℕ → Text → ℕ → Device
new_device id user_id name now = record {
  id = id;
  user_id = user_id;
  name = name;
  created_at = now;
  last_seen_at = now;
  revoked_at = none;
  status = DeviceStatus.active;
  approved_by_device_id = none;
  approved_at = some now;
  pairing_code_hash = none;
  pairing_expires_at = none;
  history_policy = new_only;
  identity_key = none;
  identity_fingerprint = none;
  identity_published_at = none;
}

unfoldable pub insert_device : Device → Db → Db
insert_device d db = record db { devices = db.devices ++ d ∷ [] }

-- What a request brings along: fresh uuids, the digest of a new refresh token and the settings.
pub record Fresh : Type 0 where
  pub device_id : ℕ
  pub session_id : ℕ
  pub refresh_hash : ℕ
  pub refresh_ttl : ℕ

unfoldable pub new_refresh_session : Fresh → Device → ℕ → RefreshSession
new_refresh_session f d now = record {
  id = f.session_id;
  user_id = d.user_id;
  device_id = d.id;
  refresh_token_hash = f.refresh_hash;
  device_name = d.name;
  created_at = now;
  expires_at = now + f.refresh_ttl;
  revoked_at = none;
}

unfoldable pub insert_refresh_session : RefreshSession → Db → Db
insert_refresh_session r db = record db { refresh_sessions = db.refresh_sessions ++ r ∷ [] }

unfoldable pub set_refresh_hash : ℕ → ℕ → Db → Db
set_refresh_hash id hash db = record db {
  refresh_sessions =
      update_where (λ r. r.id == id) (λ r. record r { refresh_token_hash = hash })
        db.refresh_sessions;
}

-- The part of `_issue_tokens` up to its commit: a new refresh session, or a new token in the old one.
unfoldable pub issue_tokens : Fresh → Device → ℕ → Option RefreshSession → Action Device
unfolding new_refresh_session insert_refresh_session set_refresh_hash
issue_tokens f device now none = do
  modify (insert_refresh_session (new_refresh_session f device now))
  commit
  pure device
issue_tokens f device now (some r) = do
  modify (set_refresh_hash r.id f.refresh_hash)
  commit
  pure device

unfoldable pub set_password : ℕ → Option Text → Db → Db
set_password id none db = db
set_password id (some hash) db = record db {
  users =
      update_where (λ u. u.id == id) (λ u. record u { password_hash = hash; password_salt = [] })
        db.users;
}

-- The user with the login, if the password is theirs, and the replacement of its hash.
unfoldable pub verified_user : Hasher → Credentials → Option User → Option (User × Option Text)
verified_user h c none = none
verified_user h c (some u) =
    let v = verify_password h c.password u.password_hash u.password_salt in
    if v.is_valid then some (u, v.replacement_hash) else none

-- `login`, after the rate limiter let it pass and up to the access token.
unfoldable pub login : Hasher → Fresh → Credentials → ℕ → Action Device
unfolding verified_user set_password active_devices insert_device new_device issue_tokens
login h f c now = do
  found ← gets (find_active_user c.login)
  user ← or_raise (verified_user h c found) 401
  modify (set_password user.0.id user.1)
  device_count ← gets (active_devices user.0.id)
  when (leb max_active_devices device_count) rollback
  raise_if (leb max_active_devices device_count) 409
  modify (insert_device (new_device f.device_id user.0.id (strip c.device_name) now))
  issue_tokens f (new_device f.device_id user.0.id (strip c.device_name) now) now none

abbrev pub has_refresh_hash : ℕ → RefreshSession → Bool
has_refresh_hash hash r = r.refresh_token_hash == hash

unfoldable pub find_refresh : ℕ → Db → Option RefreshSession
find_refresh hash db = find (has_refresh_hash hash) db.refresh_sessions

-- A session that is neither revoked nor expired.
unfoldable pub usable_session : ℕ → Option RefreshSession → Option RefreshSession
usable_session now none = none
usable_session now (some r) = if is_some r.revoked_at || leb r.expires_at now then none else some r

-- The device, if it and the user may go on.
unfoldable pub usable_device : Option Device → Option User → Option Device
usable_device none user = none
usable_device (some d) none = none
usable_device (some d) (some u) =
    if is_some d.revoked_at
      || not (is_active_status d.status)
      || not u.is_active
      || u.is_placeholder
    then none
    else some d

unfoldable pub revoke_refresh : ℕ → ℕ → Db → Db
revoke_refresh id now db = record db {
  refresh_sessions =
      update_where (λ r. r.id == id) (λ r. record r { revoked_at = some now }) db.refresh_sessions;
}

unfoldable pub set_last_seen : ℕ → ℕ → Db → Db
set_last_seen id now db = record db {
  devices = update_where (λ d. d.id == id) (λ d. record d { last_seen_at = now }) db.devices;
}

-- The end of `refresh`, on the device if it may go on.
unfoldable pub refresh_device : Fresh → ℕ → RefreshSession → Option Device → Action Device
unfolding revoke_refresh set_last_seen issue_tokens
refresh_device f now r none = do modify (revoke_refresh r.id now); commit; or_raise none 401
refresh_device f now r (some d) = do
  modify (set_last_seen d.id now)
  issue_tokens f (record d { last_seen_at = now }) now (some r)

-- `refresh` with the digest of the token that was sent, up to the access token.
unfoldable pub refresh : Fresh → Option ℕ → ℕ → Action Device
unfolding find_refresh usable_session usable_device refresh_device
refresh f token now = do
  hash ← or_raise token 401
  found ← gets (find_refresh hash)
  r ← or_raise (usable_session now found) 401
  device ← gets (get_device r.device_id)
  user ← gets (get_user r.user_id)
  refresh_device f now r (usable_device device user)

unfoldable pub logout_session : ℕ → Option RefreshSession → Action Unit
unfolding revoke_refresh
logout_session now none = pure tt
logout_session now (some r) =
    when (is_none r.revoked_at) (modify (revoke_refresh r.id now) >> commit)

-- The part of `logout` on the refresh token, where one was sent.
unfoldable pub logout_refresh : Option ℕ → ℕ → Action Unit
unfolding find_refresh logout_session
logout_refresh none now = pure tt
logout_refresh (some hash) now = do found ← gets (find_refresh hash); logout_session now found
