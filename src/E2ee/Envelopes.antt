-- ===== src/E2ee/Envelopes.antt =====
-- app/routers/e2ee.py: publishing and listing MLS envelopes.
pub mod Routing
pub mod Retries
pub mod Listing
use secure_messenger.Prelude.{
  ltb, leb, ◌==◌, if◌then◌else◌, is_none, is_some, take, find, filter, delete_where, ℕ, suc, ◌+◌,
  Bool, true, false, ◌&&◌, ◌||◌, not, Option, none, some, List, [], ◌∷◌, ◌++◌, map,
}
use secure_messenger.Model.{Db}
use secure_messenger.Model.Accounts.{Device}
use secure_messenger.Model.Mls.{ContentType, welcome, MlsEnvelope}
use secure_messenger.Http.{
  status, crash, Result, ok, err, Action, pure, gets, query, or_raise, branch, raise_if, modify,
  commit, rollback, interleave, ◌>>=◌, ◌>>◌,
}
use secure_messenger.Queries.{get_device, get_member}

abbrev pub mls_protocol_version : ℕ
mls_protocol_version = 1

-- timedelta(days=30), in microseconds
abbrev pub envelope_retention : ℕ
envelope_retention = 2592000000000

pub record EnvelopePublish : Type 0 where
  pub epoch : ℕ
  pub content_type : ContentType
  pub payload : List ℕ
  pub recipient_device_id : Option ℕ

-- `a == b` on optional ids
abbrev pub same_id : Option ℕ → Option ℕ → Bool
same_id none none = true
same_id (some a) (some b) = a == b
same_id _ _ = false

-- `created_at < now - MLS_ENVELOPE_RETENTION`, in the chat
abbrev pub is_expired_in : ℕ → ℕ → MlsEnvelope → Bool
is_expired_in chat_id now e = e.chat_id == chat_id && ltb (e.created_at + envelope_retention) now

unfoldable pub purge_expired_envelopes : ℕ → ℕ → Db → Db
purge_expired_envelopes chat_id now db = record db {
  envelopes = delete_where (is_expired_in chat_id now) db.envelopes;
}

-- The device that a Welcome is for: active, and its user a member of the chat.
unfoldable pub valid_recipient : ℕ → Option Device → Db → Result (Option Device)
valid_recipient chat_id none db = err (status 422)
valid_recipient chat_id (some d) db =
    if is_some d.revoked_at || is_none (get_member chat_id d.user_id db)
    then err (status 422)
    else ok (some d)

-- A Welcome names its recipient; no other envelope does.
unfoldable pub recipient_of : ℕ → ContentType → Option ℕ → Db → Result (Option Device)
unfolding valid_recipient
recipient_of chat_id ContentType.welcome none db = err (status 422)
recipient_of chat_id ContentType.welcome (some id) db =
    valid_recipient chat_id (get_device id db) db
recipient_of chat_id _ none db = ok none
recipient_of chat_id _ (some id) db = err (status 422)

abbrev pub sent_as : ℕ → ℕ → MlsEnvelope → Bool
sent_as sender digest e = e.sender_device_id == sender && e.message_hash == digest

-- select(MlsEnvelope).where(sender_device_id, message_hash)
unfoldable pub find_sent : ℕ → ℕ → Db → Option MlsEnvelope
find_sent sender digest db = find (sent_as sender digest) db.envelopes

unfoldable pub new_envelope : ℕ → ℕ → ℕ → EnvelopePublish → ℕ → ℕ → MlsEnvelope
new_envelope id chat_id sender request digest now = record {
  id = id;
  chat_id = chat_id;
  sender_device_id = sender;
  recipient_device_id = request.recipient_device_id;
  protocol_version = mls_protocol_version;
  epoch = request.epoch;
  content_type = request.content_type;
  payload = request.payload;
  message_hash = digest;
  created_at = now;
}

unfoldable pub insert_envelope : ℕ → ℕ → EnvelopePublish → ℕ → ℕ → Db → Db
unfolding new_envelope
insert_envelope chat_id sender request digest now db = record db {
  envelopes =
      db.envelopes ++ new_envelope db.next_envelope_id chat_id sender request digest now ∷ [];
  next_envelope_id = suc db.next_envelope_id;
}

-- session.add, then commit; the unique index (sender_device_id, message_hash) makes it fail.
unfoldable pub add_envelope : ℕ → ℕ → EnvelopePublish → ℕ → ℕ → Action Unit
unfolding find_sent insert_envelope
add_envelope chat_id sender request digest now = do
  taken ← gets (find_sent sender digest)
  branch (is_some taken) rollback
      (modify (insert_envelope chat_id sender request digest now) >> commit)

-- The user of the one recipient, or all members of the chat.
unfoldable pub recipient_ids : ℕ → Option Device → Db → List ℕ
recipient_ids chat_id (some d) db = d.user_id ∷ []
recipient_ids chat_id none db =
    map (λ m. m.user_id) (filter (λ m. m.chat_id == chat_id) db.chat_members)

-- The envelope in the answer, and the users to whom it is broadcast.
pub record Published : Type 0 where
  pub envelope : MlsEnvelope
  pub notified : List ℕ

-- The branches of `publish_mls_envelope` on the envelope that was sent before.
unfoldable pub publish_or_reuse :
    (Db → Db)
    → ℕ
    → ℕ
    → EnvelopePublish
    → ℕ
    → ℕ
    → Option Device
    → Option MlsEnvelope
    → Action Published
unfolding add_envelope recipient_ids
publish_or_reuse others chat_id sender request digest now recipient (some e) = do
  raise_if
      (not (e.chat_id == chat_id)
        || not (same_id e.recipient_device_id request.recipient_device_id))
      409
  pure (record { envelope = e; notified = [] })
publish_or_reuse others chat_id sender request digest now recipient none = do
  interleave others
  add_envelope chat_id sender request digest now
  stored ← gets (find_sent sender digest)
  envelope ← query (λ _. elim stored [ none ↦ err crash | some e ↦ ok e ])
  users ← gets (recipient_ids chat_id recipient)
  pure (record { envelope = envelope; notified = users })

-- SHA-256 and the ASCII text of a device id are parameters.
module _ (sha256 : List ℕ → ℕ) (ascii : ℕ → List ℕ) where
  -- sha256(route_scope + b"\0" + payload).hexdigest()
  unfoldable pub route_digest : Option ℕ → List ℕ → ℕ
  route_digest none payload = sha256 (0 ∷ payload)
  route_digest (some id) payload = sha256 (ascii id ++ 0 ∷ payload)

  -- Other sessions may commit between the query and the commit: `others`.
  unfoldable pub publish_mls_envelope :
      (Db → Db) → ℕ → EnvelopePublish → Device → ℕ → Action Published
  unfolding purge_expired_envelopes recipient_of publish_or_reuse
  publish_mls_envelope others chat_id request device now = do
    membership ← gets (get_member chat_id device.user_id)
    m ← or_raise membership 404
    modify (purge_expired_envelopes chat_id now)
    recipient ← query (recipient_of chat_id request.content_type request.recipient_device_id)
    existing ← gets (find_sent device.id (route_digest request.recipient_device_id request.payload))
    publish_or_reuse others chat_id device.id request
        (route_digest request.recipient_device_id request.payload) now recipient existing

-- ORDER BY id
unfoldable pub insert_by_id : MlsEnvelope → List MlsEnvelope → List MlsEnvelope
insert_by_id e [] = e ∷ []
insert_by_id e (x ∷ xs) = if leb e.id x.id then e ∷ x ∷ xs else x ∷ insert_by_id e xs

unfoldable pub order_by_id : List MlsEnvelope → List MlsEnvelope
unfolding insert_by_id
order_by_id [] = []
order_by_id (e ∷ es) = insert_by_id e (order_by_id es)

-- An envelope of the chat that is for every device, or for this one.
abbrev pub is_visible_to : ℕ → ℕ → MlsEnvelope → Bool
is_visible_to chat_id device_id e =
    e.chat_id == chat_id && elim e.recipient_device_id [ none ↦ true | some d ↦ d == device_id ]

abbrev pub page_size : ℕ
page_size = 500

-- The rows of `list_mls_envelopes`.
unfoldable pub visible_after : ℕ → ℕ → ℕ → Db → List MlsEnvelope
unfolding order_by_id
visible_after chat_id device_id after db =
    order_by_id (filter (λ e. is_visible_to chat_id device_id e && ltb after e.id) db.envelopes)

unfoldable pub list_mls_envelopes : ℕ → ℕ → Device → ℕ → Action (List MlsEnvelope)
unfolding purge_expired_envelopes visible_after
list_mls_envelopes chat_id after device now = do
  membership ← gets (get_member chat_id device.user_id)
  m ← or_raise membership 404
  modify (purge_expired_envelopes chat_id now)
  commit
  gets (λ db. take page_size (visible_after chat_id device.id after db))
