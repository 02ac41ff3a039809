-- ===== src/Auth/Devices.antt =====
-- app/routers/auth.py `revoke_device`: a device loses its row's validity, its refresh sessions, its
-- access tokens and its sockets.
pub mod Rows
pub mod Revocation
use secure_messenger.Prelude.{
  ◌==◌, if◌then◌else◌, is_none, update_where, ℕ, ◌&&◌, Option, none, some, List, [], ◌∷◌, Bool,
}
use secure_messenger.Model.{Db}
use secure_messenger.Model.Accounts.{DeviceStatus, Device}
use secure_messenger.Http.{
  status, Result, ok, err, Action, pure, gets, or_raise, modify, commit, ◌>>=◌, ◌>>◌, when, handle,
}
use secure_messenger.Queries.{get_device, contact_ids}
use secure_messenger.E2ee.Identity.{contact_events, add_events}
use secure_messenger.Services

-- The database with the stores of `app.state` that a revocation changes.
pub record Server : Type 0 where
  pub db : Db
  pub session_store : Services.SessionStore.SessionStore
  pub connections : List Services.Realtime.Connection

unfoldable pub set_revoked : ℕ → ℕ → Db → Db
set_revoked id now db = record db {
  devices =
      update_where (λ d. d.id == id)
        (λ d. record d { revoked_at = some now; status = DeviceStatus.revoked }) db.devices;
}

-- UPDATE refresh_sessions SET revoked_at WHERE device_id AND revoked_at IS NULL
unfoldable pub revoke_refresh_sessions : ℕ → ℕ → Db → Db
revoke_refresh_sessions device_id now db = record db {
  refresh_sessions =
      update_where (λ r. r.device_id == device_id && is_none r.revoked_at)
        (λ r. record r { revoked_at = some now }) db.refresh_sessions;
}

-- The device with the id, if it is the caller's.
unfoldable pub own_device : Device → Option Device → Option Device
own_device current none = none
own_device current (some d) = if d.user_id == current.user_id then some d else none

-- The first part: the rows, up to the second commit.
unfoldable pub revoke_rows : ℕ → Device → ℕ → Action Device
unfolding own_device set_revoked revoke_refresh_sessions
revoke_rows device_id current now = do
  found ← gets (get_device device_id)
  device ← or_raise (own_device current found) 404
  when (is_none device.revoked_at) (modify (set_revoked device_id now) >> commit)
  modify (revoke_refresh_sessions device_id now)
  commit
  pure device

-- The last part: the contacts' security events.
unfoldable pub notify_contacts : (ℕ → ℕ) → Device → Device → ℕ → Action (List ℕ)
unfolding contact_events add_events
notify_contacts fresh current device now = do
  contacts ← gets (contact_ids current.user_id)
  modify (
      add_events
        (contact_events fresh current.user_id device.id device.identity_fingerprint now contacts))
  commit
  pure contacts

-- The connections after the broadcast to the contacts, which follows their events.
unfoldable pub after_notify :
    (ℕ → Bool)
    → Result (List ℕ)
    → List Services.Realtime.Connection
    → List Services.Realtime.Connection
after_notify fails (err e) cs = cs
after_notify fails (ok contacts) cs = (Services.Realtime.broadcast fails contacts cs).1

-- After the rows: the stores, the broadcast to the user, the contacts and the broadcast to them.
-- The two functions say which sockets fail in the one broadcast and in the other.
unfoldable pub revoke_stores :
    (ℕ → Bool)
    → (ℕ → Bool)
    → (ℕ → ℕ)
    → Device
    → ℕ
    → ℕ
    → Result Device
    → Server
    → Result (List ℕ) × Server
unfolding notify_contacts after_notify
revoke_stores fails fails_later fresh current device_id now (err e) s = (err e, s)
revoke_stores fails fails_later fresh current device_id now (ok device) s =
    let store = Services.SessionStore.revoke_device device_id s.session_store in
    let open_ones = (Services.Realtime.close_device device_id s.connections).1 in
    let told = (Services.Realtime.broadcast fails (current.user_id ∷ []) open_ones).1 in
    let (r, db) = handle (notify_contacts fresh current device now) s.db in
    (r, record { db = db; session_store = store; connections = after_notify fails_later r told })

unfoldable pub revoke_device :
    (ℕ → Bool) → (ℕ → Bool) → (ℕ → ℕ) → ℕ → Device → ℕ → Server → Result (List ℕ) × Server
unfolding revoke_rows revoke_stores
revoke_device fails fails_later fresh device_id current now s =
    let (r, db) = handle (revoke_rows device_id current now) s.db in
    revoke_stores fails fails_later fresh current device_id now r (record s { db = db })
