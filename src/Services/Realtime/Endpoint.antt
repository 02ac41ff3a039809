-- ===== src/Services/Realtime/Endpoint.antt =====
-- app/routers/realtime.py: the WebSocket endpoint, step by step. Each of its awaits lets the other
-- tasks of the process run.
use secure_messenger.Prelude.{
  if◌then◌else◌, is_none, drop, find, Text, codes, starts_with, strip, split_on, ℕ, Bool, false,
  ◌&&◌, not, Option, none, some, map,
}
use secure_messenger.Model.{Db}
use secure_messenger.Model.Accounts.{User, Device, is_active_status}
use secure_messenger.Queries.{get_user, get_device}
use secure_messenger.Services.SessionStore.{SessionData, SessionStore, resolve}

abbrev comma : ℕ
comma = 44

abbrev is_bearer : Text → Bool
is_bearer protocol = starts_with protocol (codes "bearer.")

-- The first protocol that starts with "bearer.".
unfoldable pub bearer_protocol : Text → Option Text
unfolding split_on
bearer_protocol header = find is_bearer (map strip (split_on comma header))

-- The test on the rows of the user and the device.
unfoldable pub may_connect : Option User → Option Device → Bool
may_connect none device = false
may_connect (some u) none = false
may_connect (some u) (some d) =
    u.is_active && not u.is_placeholder && is_active_status d.status && is_none d.revoked_at

-- Whom a session stands for, if the rows let them connect.
unfoldable pub admit : Text → Option SessionData → Db → Option (Text × SessionData)
unfolding may_connect
admit token none db = none
admit token (some x) db =
    if may_connect (get_user x.user_id db) (get_device x.device_id db)
    then some (token, x)
    else none

-- The endpoint up to the first `close` or to `websocket_opened`: the token and its session, or
-- nothing where the socket is closed with 4001.
unfoldable pub handshake :
    (Text → ℕ) → Text → ℕ → Db → SessionStore → Option (Text × SessionData) × SessionStore
unfolding bearer_protocol admit
handshake sha256 header now db store = elim (bearer_protocol header) [
  | none ↦ (none, store)
  | some protocol ↦
      let token = drop 7 protocol in
      let (found, after) = resolve sha256 token now store in (admit token found db, after)
]

-- The answer to a message of the client.
pub data Reply : Type 0 where
  -- close(code=4003), after which the endpoint returns
  session_revoked : Reply
  -- send_json with the error that client events are disabled
  events_disabled : Reply

-- One turn of the receive loop.
unfoldable pub receive : (Text → ℕ) → Text → ℕ → SessionStore → Reply × SessionStore
receive sha256 token now store =
    let (found, after) = resolve sha256 token now store in
    (if is_none found then session_revoked else events_disabled, after)
