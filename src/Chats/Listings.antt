-- ===== src/Chats/Listings.antt =====
-- app/routers/chats.py: the listings of chats and of pending invitations.
use secure_messenger.Prelude.{
  ltb, ◌==◌, is_some, filter, order_by, ℕ, Bool, true, ◌&&◌, ◌||◌, List, [], ◌∷◌,
}
use secure_messenger.Model.{Db}
use secure_messenger.Model.Accounts.{User}
use secure_messenger.Model.Chats.{ChatType, is_group_type, is_dm_type, Chat}
use secure_messenger.Http.{Result, ok, err, Action, query}
use secure_messenger.Queries.{get_member}
use secure_messenger.Serializers.{ChatResponse, serialize_chat_summary}
use secure_messenger.Chats.Invitations.{InvitationResponse, serialize_invitation, open_invitations}

-- order_by(Chat.created_at.desc(), Chat.id.desc())
abbrev is_newer : Chat → Chat → Bool
is_newer a b = ltb b.created_at a.created_at || (a.created_at == b.created_at && ltb b.id a.id)

-- The chats of a user of which a test holds: the join has one row for each membership, which is
-- unique.
unfoldable pub chats_of : (ChatType → Bool) → ℕ → Db → List Chat
unfolding order_by get_member
chats_of test user_id db =
    order_by is_newer (filter (λ c. test c.type && is_some (get_member c.id user_id db)) db.chats)

-- The answers for each row, in order; the first exception ends the request.
unfoldable pub answer_each : {A B : Type 0} → (A → Result B) → List A → Result (List B)
answer_each f [] = ok []
answer_each f (x ∷ xs) = elim (f x) [
  | err e ↦ err e
  | ok y ↦ elim (answer_each f xs) [ err e ↦ err e | ok ys ↦ ok (y ∷ ys) ]
]

unfoldable pub list_some_chats : (ChatType → Bool) → User → Action (List ChatResponse)
unfolding chats_of answer_each
list_some_chats test current =
    query (λ db.
      answer_each (λ c. serialize_chat_summary current.id c db) (chats_of test current.id db))

unfoldable pub list_chats : User → Action (List ChatResponse)
unfolding list_some_chats
list_chats current = list_some_chats (λ _. true) current

unfoldable pub list_direct_chats : User → Action (List ChatResponse)
unfolding list_some_chats
list_direct_chats current = list_some_chats is_dm_type current

unfoldable pub list_groups : User → Action (List ChatResponse)
unfolding list_some_chats
list_groups current = list_some_chats is_group_type current

unfoldable pub list_pending_invitations : User → ℕ → Action (List InvitationResponse)
unfolding answer_each open_invitations
list_pending_invitations current now = query (λ db.
    answer_each (λ i. serialize_invitation i db)
      (order_by (λ a b. ltb b.created_at a.created_at) (open_invitations current.id now db)))
