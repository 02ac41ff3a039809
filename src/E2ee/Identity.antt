-- ===== src/E2ee/Identity.antt =====
-- app/routers/e2ee.py: device identities and security events.
pub mod Fingerprints
use secure_messenger.Prelude.{
  ◌==◌, is_none, is_some, length, find, filter, update_where, text_eq, ℕ, Bool, false, ◌&&◌, not,
  Option, none, some, List, [], ◌∷◌, ◌++◌,
}
use secure_messenger.Model.{Db}
use secure_messenger.Model.Accounts.{Device, fingerprint_changed, SecurityEvent}
use secure_messenger.Http.{
  Action, pure, gets, or_raise, raise_if, modify, commit, ◌>>=◌, ◌>>◌, when,
}
use secure_messenger.Queries.{contact_ids}

-- `identity_fingerprint == fingerprint`
abbrev pub has_fingerprint : ℕ → Device → Bool
has_fingerprint f d = elim d.identity_fingerprint [ none ↦ false | some g ↦ g == f ]

-- select(Device.id).where(identity_fingerprint == fingerprint, id != own)
unfoldable pub find_collision : ℕ → ℕ → Db → Option Device
find_collision fingerprint own db =
    find (λ d. has_fingerprint fingerprint d && not (d.id == own)) db.devices

abbrev pub with_identity : List ℕ → ℕ → ℕ → Device → Device
with_identity key fingerprint now d = record d {
  identity_key = some key;
  identity_fingerprint = some fingerprint;
  identity_published_at = some now;
}

unfoldable pub set_identity : ℕ → List ℕ → ℕ → ℕ → Db → Db
set_identity id key fingerprint now db = record db {
  devices = update_where (λ d. d.id == id) (with_identity key fingerprint now) db.devices;
}

-- One SecurityEvent for each contact; the uuids come from `fresh`.
unfoldable pub contact_events : (ℕ → ℕ) → ℕ → ℕ → Option ℕ → ℕ → List ℕ → List SecurityEvent
contact_events fresh subject device fingerprint now [] = []
contact_events fresh subject device fingerprint now (contact ∷ rest) =
    record {
      id = fresh (length rest);
      recipient_user_id = contact;
      event_type = fingerprint_changed;
      subject_user_id = subject;
      device_id = some device;
      fingerprint = fingerprint;
      created_at = now;
      acknowledged_at = none;
    }
    ∷ contact_events fresh subject device fingerprint now rest

unfoldable pub add_events : List SecurityEvent → Db → Db
add_events es db = record db { security_events = db.security_events ++ es }

-- The branches of `publish_identity` on the key that the device has; the result are the users to
-- whom the event is broadcast.
unfoldable pub publish_or_keep :
    (ℕ → ℕ) → List ℕ → ℕ → Device → ℕ → Option (List ℕ) → Action (List ℕ)
unfolding find_collision set_identity contact_events add_events
publish_or_keep fresh key fingerprint device now (some old) = do
  raise_if (not (text_eq old key)) 409
  pure []
publish_or_keep fresh key fingerprint device now none = do
  collision ← gets (find_collision fingerprint device.id)
  raise_if (is_some collision) 409
  modify (set_identity device.id key fingerprint now)
  commit
  contacts ← gets (contact_ids device.user_id)
  modify
      (add_events (contact_events fresh device.user_id device.id (some fingerprint) now contacts))
  commit
  pure contacts

module _ (sha256 : List ℕ → ℕ) where
  unfoldable pub publish_identity : (ℕ → ℕ) → List ℕ → Device → ℕ → Action (List ℕ)
  unfolding publish_or_keep
  publish_identity fresh key device now =
      publish_or_keep fresh key (sha256 key) device now device.identity_key

-- The events of `list_security_events`, before they are sorted and cut to 50.
unfoldable pub open_events : ℕ → Db → List SecurityEvent
open_events user_id db =
    filter (λ e. e.recipient_user_id == user_id && is_none e.acknowledged_at) db.security_events

unfoldable pub set_acknowledged : ℕ → ℕ → Db → Db
set_acknowledged id now db = record db {
  security_events =
      update_where (λ e. e.id == id) (λ e. record e { acknowledged_at = some now })
        db.security_events;
}

unfoldable pub acknowledge_security_event : ℕ → Device → ℕ → Action Unit
unfolding set_acknowledged
acknowledge_security_event id device now = do
  found ← gets (λ db. find (λ e. e.id == id) db.security_events)
  event ← or_raise found 404
  raise_if (not (event.recipient_user_id == device.user_id)) 404
  when (is_none event.acknowledged_at) (modify (set_acknowledged id now) >> commit)
