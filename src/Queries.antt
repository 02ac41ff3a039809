-- ===== src/Queries.antt =====
-- The SELECT statements that several routers share.
use secure_messenger.Prelude.{
  ◌==◌, if◌then◌else◌, find, filter, any, Text, text_eq, ℕ, Bool, ◌&&◌, ◌||◌, not, Option, List, [],
  ◌∷◌, map,
}
use secure_messenger.Model.{Db}
use secure_messenger.Model.Accounts.{User, Device}
use secure_messenger.Model.Chats.{is_group_type, Chat, ChatMember}

-- select(User).where(User.login == login)
unfoldable pub find_user : Text → Db → Option User
find_user login db = find (λ u. text_eq u.login login) db.users

-- The same, restricted to accounts that are active and no placeholder.
unfoldable pub find_active_user : Text → Db → Option User
find_active_user login db =
    find (λ u. text_eq u.login login && u.is_active && not u.is_placeholder) db.users

-- session.get(User, id)
unfoldable pub get_user : ℕ → Db → Option User
get_user id db = find (λ u. u.id == id) db.users

-- session.get(Device, id)
unfoldable pub get_device : ℕ → Db → Option Device
get_device id db = find (λ d. d.id == id) db.devices

-- The test of the primary key (chat_id, user_id).
abbrev pub member_key : ℕ → ℕ → ChatMember → Bool
member_key chat_id user_id m = m.chat_id == chat_id && m.user_id == user_id

-- session.get(ChatMember, (chat_id, user_id))
unfoldable pub get_member : ℕ → ℕ → Db → Option ChatMember
get_member chat_id user_id db = find (member_key chat_id user_id) db.chat_members

-- select(Chat).where(Chat.id == chat_id)
unfoldable pub get_chat : ℕ → Db → Option Chat
get_chat chat_id db = find (λ c. c.id == chat_id) db.chats

-- select(Chat).where(Chat.id == chat_id, Chat.type == "group")
unfoldable pub get_group : ℕ → Db → Option Chat
get_group chat_id db = find (λ c. c.id == chat_id && is_group_type c.type) db.chats

-- The chats of a user: select(ChatMember.chat_id).where(ChatMember.user_id == user_id)
unfoldable pub chat_ids_of : ℕ → Db → List ℕ
chat_ids_of user_id db = map (λ m. m.chat_id) (filter (λ m. m.user_id == user_id) db.chat_members)

-- Two users have a chat in common (the INTERSECT with LIMIT 1).
unfoldable pub share_chat : ℕ → ℕ → Db → Bool
unfolding chat_ids_of
share_chat a b db = any (λ c. any (λ m. member_key c b m) db.chat_members) (chat_ids_of a db)

-- A block in either direction.
unfoldable pub is_blocked : ℕ → ℕ → Db → Bool
is_blocked a b db =
    any (λ x. (x.blocker_id == a && x.blocked_id == b) || (x.blocker_id == b && x.blocked_id == a))
      db.user_blocks

-- The users other than `user_id` in the chats of `user_id`, each once (a set in the source).
add_once : ℕ → List ℕ → List ℕ
add_once x xs = if any (λ y. x == y) xs then xs else x ∷ xs

distinct : List ℕ → List ℕ
unfolding add_once
distinct [] = []
distinct (x ∷ xs) = add_once x (distinct xs)

unfoldable pub contact_ids : ℕ → Db → List ℕ
unfolding distinct chat_ids_of
contact_ids user_id db = distinct (
    map (λ m. m.user_id)
      (filter
        (λ m. any (λ c. m.chat_id == c) (chat_ids_of user_id db) && not (m.user_id == user_id))
        db.chat_members))
