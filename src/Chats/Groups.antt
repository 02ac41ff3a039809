-- ===== src/Chats/Groups.antt =====
-- app/routers/chats.py: groups and their members.
use secure_messenger.Prelude.{
  ◌==◌, if◌then◌else◌, length, filter, update_where, delete_where, Text, text_eq, text_in, strip, ℕ,
  suc, Bool, ◌&&◌, ◌||◌, not, Option, none, some, List, [], ◌∷◌, ◌++◌,
}
use secure_messenger.Model.{Db}
use secure_messenger.Model.Accounts.{User}
use secure_messenger.Model.Chats.{
  group, HistoryVisibility, Chat, Role, owner, admin, member, is_owner, is_admin, role_eq,
  ChatMember,
}
use secure_messenger.Http.{
  Action, pure, gets, query, or_raise, raise_if, modify, commit, ◌>>=◌, ◌>>◌, when,
}
use secure_messenger.Queries.{
  find_user, find_active_user, member_key, get_member, get_chat, get_group,
}
use secure_messenger.Serializers.{ChatResponse, serialize_chat, serialize_found}
use secure_messenger.Uploads.{validate_avatar_url}
use secure_messenger.Chats.Direct.{new_member}

-- GroupMemberRequest.role is "admin" or "member".
pub data GroupRole : Type 0 where
  as_admin as_member : GroupRole

unfoldable pub role_of : GroupRole → Role
role_of as_admin = admin
role_of as_member = member

pub record GroupCreateRequest : Type 0 where
  pub avatar_url : Option Text
  pub member_logins : List Text
  pub history_visibility : HistoryVisibility

-- A set of texts, built by adding one text after the other.
unfoldable pub add_login : Text → List Text → List Text
add_login t ts = if text_in t ts then ts else t ∷ ts

-- {login.strip() for login in logins if login.strip()} without the caller's own login
unfoldable pub requested_logins : Text → List Text → List Text
unfolding add_login
requested_logins own [] = []
requested_logins own (l ∷ ls) =
    let rest = requested_logins own ls in
    if text_eq (strip l) [] || text_eq (strip l) own then rest else add_login (strip l) rest

-- select(User).where(User.login.in_(logins), is_active, not is_placeholder)
unfoldable pub users_with_logins : List Text → Db → List User
users_with_logins logins db =
    filter (λ u. text_in u.login logins && u.is_active && not u.is_placeholder) db.users

unfoldable pub new_members : ℕ → ℕ → List User → List ChatMember
unfolding new_member
new_members chat_id now [] = []
new_members chat_id now (u ∷ us) = new_member chat_id u.id member now ∷ new_members chat_id now us

unfoldable pub insert_group : GroupCreateRequest → Option Text → ℕ → List User → ℕ → Db → Db
unfolding new_members
insert_group request avatar creator users now db = record db {
  chats = db.chats ++ chat ∷ [];
  chat_members =
      db.chat_members
      ++ new_member db.next_chat_id creator owner now ∷ new_members db.next_chat_id now users;
  next_chat_id = suc db.next_chat_id;
}
  where
    chat : Chat
    chat = record {
      id = db.next_chat_id;
      type = group;
      avatar_url = avatar;
      history_visibility = request.history_visibility;
      direct_key = none;
      created_by_user_id = creator;
      created_at = now;
    }

unfoldable pub create_group : GroupCreateRequest → User → ℕ → Action ChatResponse
unfolding insert_group requested_logins users_with_logins serialize_found
create_group request current now = do
  let logins = requested_logins current.login request.member_logins
  users ← gets (users_with_logins logins)
  raise_if (not (length users == length logins)) 404
  avatar ← query (λ _. validate_avatar_url request.avatar_url)
  group_id ← gets (λ db. db.next_chat_id)
  modify (insert_group request avatar current.id users now)
  commit
  found ← gets (get_chat group_id)
  query (serialize_found serialize_chat found)

-- `actor.role not in {"owner", "admin"}`
abbrev pub is_plain_member : Role → Bool
is_plain_member r = not (is_owner r || is_admin r)

unfoldable pub group_and_actor : ℕ → ℕ → Action (Chat × ChatMember)
group_and_actor chat_id actor_id = do
  found ← gets (get_group chat_id)
  chat ← or_raise found 404
  membership ← gets (get_member chat_id actor_id)
  actor ← or_raise membership 404
  raise_if (is_plain_member actor.role) 403
  pure (chat, actor)

-- `membership.role = role` on the row with the primary key
unfoldable pub set_role : ℕ → ℕ → Role → Db → Db
set_role chat_id user_id role db = record db {
  chat_members =
      update_where (member_key chat_id user_id) (λ m. record m { role = role }) db.chat_members;
}

-- session.add(ChatMember(...))
unfoldable pub insert_member : ChatMember → Db → Db
insert_member m db = record db { chat_members = db.chat_members ++ m ∷ [] }

-- session.delete(membership)
unfoldable pub delete_member : ℕ → ℕ → Db → Db
delete_member chat_id user_id db = record db {
  chat_members = delete_where (member_key chat_id user_id) db.chat_members;
}

-- The branches of `add_group_member` on the membership that was found.
unfoldable pub put_member : ℕ → ℕ → Role → ChatMember → ℕ → Option ChatMember → Action Unit
unfolding set_role insert_member new_member
put_member chat_id user_id role actor now none =
    modify (insert_member (new_member chat_id user_id role now))
put_member chat_id user_id role actor now (some m) =
    when (not (role_eq m.role role))
      do raise_if (not (is_owner actor.role)) 403; modify (set_role chat_id user_id role)

unfoldable pub add_group_member : ℕ → Text → GroupRole → User → ℕ → Action ChatResponse
unfolding group_and_actor put_member role_of serialize_found
add_group_member chat_id login role current now = do
  (chat, actor) ← group_and_actor chat_id current.id
  raise_if (is_admin (role_of role) && not (is_owner actor.role)) 403
  found ← gets (find_active_user login)
  user ← or_raise found 404
  membership ← gets (get_member chat_id user.id)
  put_member chat_id user.id (role_of role) actor now membership
  commit
  reloaded ← gets (get_chat chat_id)
  query (serialize_found serialize_chat reloaded)

-- The branches of `remove_group_member` on the membership that was found.
unfoldable pub drop_member : ℕ → ℕ → ChatMember → Option ChatMember → Action Unit
unfolding delete_member
drop_member chat_id user_id actor none = pure tt
drop_member chat_id user_id actor (some m) = do
  raise_if (is_owner m.role) 409
  raise_if (is_admin m.role && not (is_owner actor.role)) 403
  modify (delete_member chat_id user_id)
  commit

unfoldable pub remove_group_member : ℕ → Text → User → Action Unit
unfolding group_and_actor drop_member
remove_group_member chat_id login current = do
  (chat, actor) ← group_and_actor chat_id current.id
  found ← gets (find_user login)
  user ← or_raise found 404
  membership ← gets (get_member chat_id user.id)
  drop_member chat_id user.id actor membership

unfoldable pub leave_group : ℕ → User → Action Unit
unfolding delete_member
leave_group chat_id current = do
  found ← gets (get_group chat_id)
  chat ← or_raise found 404
  membership ← gets (get_member chat_id current.id)
  m ← or_raise membership 404
  raise_if (is_owner m.role) 409
  modify (delete_member chat_id current.id)
  commit

-- The membership of the user with a login, if both are there.
unfoldable pub member_with_login : ℕ → Option User → Db → Option ChatMember
member_with_login chat_id none db = none
member_with_login chat_id (some u) db = get_member chat_id u.id db

unfoldable pub transfer_group_ownership : ℕ → Text → User → Action ChatResponse
unfolding member_with_login set_role serialize_found
transfer_group_ownership chat_id login current = do
  found ← gets (get_group chat_id)
  chat ← or_raise found 404
  membership ← gets (get_member chat_id current.id)
  actor ← or_raise membership 404
  raise_if (not (is_owner actor.role)) 403
  target_user ← gets (find_user login)
  target_found ← gets (member_with_login chat_id target_user)
  target ← or_raise target_found 404
  raise_if (target.user_id == current.id) 409
  modify (set_role chat_id actor.user_id admin)
  modify (set_role chat_id target.user_id owner)
  commit
  reloaded ← gets (get_chat chat_id)
  query (serialize_found serialize_chat reloaded)
