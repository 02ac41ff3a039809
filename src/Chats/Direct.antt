-- ===== src/Chats/Direct.antt =====
-- app/routers/chats.py: direct chats.
use secure_messenger.Prelude.{
  ◌==◌, is_some, find, Text, ℕ, suc, min, max, Bool, false, ◌&&◌, Option, none, some, [], ◌∷◌, ◌++◌,
}
use secure_messenger.Model.{Db}
use secure_messenger.Model.Accounts.{User}
use secure_messenger.Model.Chats.{dm, since_join, DirectKey, Chat, Role, owner, member, ChatMember}
use secure_messenger.Http.{
  Action, gets, query, or_raise, branch, raise_if, modify, commit, rollback, interleave, ◌>>=◌,
  ◌>>◌,
}
use secure_messenger.Queries.{find_active_user, is_blocked}
use secure_messenger.Serializers.{ChatResponse, serialize_chat_summary, serialize_found}

-- f"{min(a, b)}:{max(a, b)}"
unfoldable pub direct_key_of : ℕ → ℕ → DirectKey
direct_key_of a b = record { low = min a b; high = max a b }

abbrev pub has_direct_key : DirectKey → Chat → Bool
has_direct_key k c = elim c.direct_key [
  | none ↦ false
  | some j ↦ j.low == k.low && j.high == k.high
]

-- select(Chat).where(Chat.direct_key == direct_key)
unfoldable pub find_direct : DirectKey → Db → Option Chat
find_direct k db = find (has_direct_key k) db.chats

unfoldable pub new_member : ℕ → ℕ → Role → ℕ → ChatMember
new_member chat_id user_id role now = record {
  chat_id = chat_id;
  user_id = user_id;
  role = role;
  history_from_seq = 1;
  joined_at = now;
}

unfoldable pub insert_direct : DirectKey → ℕ → ℕ → ℕ → Db → Db
unfolding new_member
insert_direct k creator other now db = record db {
  chats = db.chats ++ chat ∷ [];
  chat_members =
      db.chat_members
      ++ new_member db.next_chat_id creator owner now
        ∷ new_member db.next_chat_id other member now
        ∷ [];
  next_chat_id = suc db.next_chat_id;
}
  where
    chat : Chat
    chat = record {
      id = db.next_chat_id;
      type = dm;
      avatar_url = none;
      history_visibility = since_join;
      direct_key = some k;
      created_by_user_id = creator;
      created_at = now;
    }

-- session.add, then commit; the unique index on `direct_key` makes the commit fail.
unfoldable pub add_direct : DirectKey → ℕ → ℕ → ℕ → Action Unit
unfolding find_direct insert_direct
add_direct k creator other now = do
  taken ← gets (find_direct k)
  branch (is_some taken) rollback (modify (insert_direct k creator other now) >> commit)

-- Between the query and the commit other sessions may commit: `others`.
unfoldable pub direct_or_new : (Db → Db) → DirectKey → ℕ → ℕ → ℕ → Option Chat → Action ChatResponse
unfolding add_direct serialize_found
direct_or_new others k current other now (some chat) = query (serialize_chat_summary current chat)
direct_or_new others k current other now none = do
  interleave others
  add_direct k current other now
  chat ← gets (find_direct k)
  query (serialize_found (serialize_chat_summary current) chat)

unfoldable pub create_direct_chat : (Db → Db) → Text → User → ℕ → Action ChatResponse
unfolding direct_or_new direct_key_of
create_direct_chat others login current now = do
  found ← gets (find_active_user login)
  other ← or_raise found 404
  raise_if (other.id == current.id) 400
  blocked ← gets (is_blocked current.id other.id)
  raise_if blocked 403
  chat ← gets (find_direct (direct_key_of current.id other.id))
  direct_or_new others (direct_key_of current.id other.id) current.id other.id now chat
