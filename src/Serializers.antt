-- ===== src/Serializers.antt =====
-- app/services/serializers.py: what a chat looks like to its members.
use secure_messenger.Prelude.{
  ltb, ◌==◌, if◌then◌else◌, find, filter, Text, ℕ, max, Bool, true, false, ◌&&◌, ◌||◌, not, Option,
  none, some, List, [], ◌∷◌, map,
}
use secure_messenger.Model.{Db}
use secure_messenger.Model.Accounts.{User}
use secure_messenger.Model.Chats.{ChatType, HistoryVisibility, is_dm_type, Chat, Role, ChatMember}
use secure_messenger.Model.Mls.{MlsEnvelope}
use secure_messenger.Http.{crash, Result, ok, err}
use secure_messenger.Queries.{get_user}

pub record ChatPeer : Type 0 where
  pub id : ℕ
  pub login : Text
  pub username : Text
  pub display_name : Option Text
  pub avatar_url : Option Text

pub record ChatResponse : Type 0 where
  pub id : ℕ
  pub type : ChatType
  pub created_by : Text
  pub created_at : ℕ
  pub members : List Text
  pub member_roles : List (Text × Role)
  pub avatar_url : Option Text
  pub history_visibility : HistoryVisibility
  pub peer : Option ChatPeer
  pub last_envelope_id : Option ℕ

-- The order of Python's `str`: by code points.
text_leb : Text → Text → Bool
text_leb [] t = true
text_leb (c ∷ s) [] = false
text_leb (c ∷ s) (d ∷ t) = ltb c d || (c == d && text_leb s t)

insert_sorted : Text → List Text → List Text
insert_sorted x [] = x ∷ []
insert_sorted x (y ∷ ys) = if text_leb x y then x ∷ y ∷ ys else y ∷ insert_sorted x ys

unfoldable pub sorted : List Text → List Text
unfolding insert_sorted text_leb
sorted [] = []
sorted (x ∷ xs) = insert_sorted x (sorted xs)

abbrev pub members_of : ℕ → Db → List ChatMember
members_of chat_id db = filter (λ m. m.chat_id == chat_id) db.chat_members

-- (member.user.login, member.role) for each member; `none` where a user's row is missing.
unfoldable pub logins_of : Db → List ChatMember → Option (List (Text × Role))
unfolding get_user
logins_of db [] = some []
logins_of db (m ∷ ms) = elim (get_user m.user_id db) [
  | none ↦ none
  | some u ↦ elim (logins_of db ms) [ none ↦ none | some rest ↦ some ((u.login, m.role) ∷ rest) ]
]

unfoldable pub serialize_chat : Chat → Db → Result ChatResponse
unfolding logins_of sorted
serialize_chat chat db = elim (get_user chat.created_by_user_id db) [
  | none ↦ err crash
  | some creator ↦ elim (logins_of db (members_of chat.id db)) [
    | none ↦ err crash
    | some roles ↦ ok (record {
      id = chat.id;
      type = chat.type;
      created_by = creator.login;
      created_at = chat.created_at;
      members = sorted (map (λ r. r.0) roles);
      member_roles = roles;
      avatar_url = chat.avatar_url;
      history_visibility = chat.history_visibility;
      peer = none;
      last_envelope_id = none;
    })
  ]
]

-- select(func.max(MlsEnvelope.id)).where(MlsEnvelope.chat_id == chat.id)
max_id : ℕ → List MlsEnvelope → Option ℕ
max_id chat_id [] = none
max_id chat_id (e ∷ es) =
    let rest = max_id chat_id es in
    if e.chat_id == chat_id
    then some (elim rest [ none ↦ e.id | some best ↦ max e.id best ])
    else rest

-- The row of the first member other than the viewer.
peer_of : ℕ → Chat → Db → Option User
peer_of viewer chat db = elim (find (λ m. not (m.user_id == viewer)) (members_of chat.id db)) [
  | none ↦ none
  | some m ↦ get_user m.user_id db
]

as_peer : User → ChatPeer
as_peer u = record {
  id = u.id;
  login = u.login;
  username = u.username;
  display_name = u.display_name;
  avatar_url = u.avatar_url;
}

with_peer : Option User → ChatResponse → ChatResponse
unfolding as_peer
with_peer none r = record r { avatar_url = none; peer = none }
with_peer (some u) r = record r { avatar_url = u.avatar_url; peer = some (as_peer u) }

unfoldable pub serialize_chat_summary : ℕ → Chat → Db → Result ChatResponse
unfolding serialize_chat max_id peer_of with_peer
serialize_chat_summary viewer chat db = elim (serialize_chat chat db) [
  | err e ↦ err e
  | ok r ↦
      let named = if is_dm_type chat.type then with_peer (peer_of viewer chat db) r else r in
      ok (record named { last_envelope_id = max_id chat.id db.envelopes })
]

-- The chat that a handler loads again before it answers.
unfoldable pub serialize_found :
    (Chat → Db → Result ChatResponse) → Option Chat → Db → Result ChatResponse
serialize_found view none db = err crash
serialize_found view (some chat) db = view chat db
