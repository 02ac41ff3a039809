-- ===== src/E2ee/Directory.antt =====
-- app/routers/e2ee.py: whom a device can send to. The listings of the devices of a chat, of the
-- identities of a user and of the security events.
use secure_messenger.Prelude.{
  ltb, leb, ◌==◌, if◌then◌else◌, is_none, is_some, length, take, filter, any, order_by, Text,
  text_eq, ℕ, Bool, ◌&&◌, ◌||◌, not, Option, none, some, List, [], ◌∷◌, ◌++◌, map,
}
use secure_messenger.Model.{Db}
use secure_messenger.Model.Accounts.{User, Device, SecurityEvent}
use secure_messenger.Http.{
  crash, ok, err, Action, pure, gets, query, or_raise, raise_if, ◌>>=◌, ◌>>◌,
}
use secure_messenger.Queries.{get_user, get_member, get_chat}
use secure_messenger.E2ee.Identity.{open_events}

-- A row of the join of devices, users and members.
pub record DeviceRow : Type 0 where
  pub id : ℕ
  pub login : Text
  pub user_id : ℕ
  pub created_at : ℕ

-- Neither revoked nor without an identity key.
abbrev pub can_receive : Device → Bool
can_receive d = is_none d.revoked_at && is_some d.identity_key

unfoldable pub with_login : Device → Option User → List DeviceRow
with_login d none = []
with_login d (some u) =
    record { id = d.id; login = u.login; user_id = d.user_id; created_at = d.created_at } ∷ []

-- The rows of the devices of one list.
unfoldable pub device_rows : ℕ → Db → List Device → List DeviceRow
unfolding with_login get_member get_user
device_rows chat_id db [] = []
device_rows chat_id db (d ∷ ds) =
    let rest = device_rows chat_id db ds in
    if can_receive d && is_some (get_member chat_id d.user_id db)
    then with_login d (get_user d.user_id db) ++ rest
    else rest

-- The order of the keys (row.user_id != creator, row.created_at, row.id).
unfoldable pub is_ahead : ℕ → DeviceRow → DeviceRow → Bool
is_ahead creator a b =
    let own_a = a.user_id == creator in
    let own_b = b.user_id == creator in
    (own_a && not own_b)
    || ((own_a && own_b || not own_a && not own_b)
        && (ltb a.created_at b.created_at || (a.created_at == b.created_at && ltb a.id b.id)))

-- The answer: the first device coordinates.
pub record ChatDevices : Type 0 where
  pub coordinator_device_id : Option ℕ
  pub devices : List (ℕ × Text)

unfoldable pub first_id : List DeviceRow → Option ℕ
first_id [] = none
first_id (r ∷ rs) = some r.id

unfoldable pub chat_devices : ℕ → List DeviceRow → ChatDevices
unfolding is_ahead order_by first_id
chat_devices creator rows =
    let sorted = order_by (is_ahead creator) rows in
    record { coordinator_device_id = first_id sorted; devices = map (λ r. (r.id, r.login)) sorted }

unfoldable pub list_chat_devices : ℕ → Device → Action ChatDevices
unfolding device_rows chat_devices
list_chat_devices chat_id current = do
  membership ← gets (get_member chat_id current.user_id)
  m ← or_raise membership 404
  found ← gets (get_chat chat_id)
  chat ← query (λ _. elim found [ none ↦ err crash | some c ↦ ok c ])
  gets (λ db. chat_devices chat.created_by_user_id (device_rows chat_id db db.devices))

-- `_identity_response`
pub record DeviceIdentity : Type 0 where
  pub device_id : ℕ
  pub login : Text
  pub identity_key : Option (List ℕ)
  pub fingerprint : Option ℕ
  pub published_at : Option ℕ

unfoldable pub identity_response : Text → Device → DeviceIdentity
identity_response login d = record {
  device_id = d.id;
  login = login;
  identity_key = d.identity_key;
  fingerprint = d.identity_fingerprint;
  published_at = d.identity_published_at;
}

-- The devices of an active user with this login, oldest first.
unfoldable pub identities_of : Text → Db → List Device
unfolding order_by
identities_of login db =
    order_by
      (λ a b. ltb a.created_at b.created_at || (a.created_at == b.created_at && ltb a.id b.id))
      (filter
        (λ d.
          can_receive d
          && any (λ u. u.id == d.user_id && text_eq u.login login && u.is_active) db.users)
        db.devices)

unfoldable pub list_user_identities : Text → Action (List DeviceIdentity)
unfolding identities_of identity_response
list_user_identities login = do
  found ← gets (identities_of login)
  raise_if (leb (length found) 0) 404
  pure (map (identity_response login) found)

unfoldable pub list_security_events : Device → Action (List SecurityEvent)
unfolding open_events order_by
list_security_events current = gets (λ db.
    take 50 (order_by (λ a b. ltb b.created_at a.created_at) (open_events current.user_id db)))
