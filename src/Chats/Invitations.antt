-- ===== src/Chats/Invitations.antt =====
-- app/routers/chats.py: invitations to groups, and the settings of a group.
use secure_messenger.Prelude.{
  ltb, leb, ◌==◌, is_none, is_some, find, filter, update_where, Text, ℕ, ◌+◌, Bool, ◌&&◌, not,
  Option, none, some, List, [], ◌∷◌, ◌++◌,
}
use secure_messenger.Model.{Db}
use secure_messenger.Model.Accounts.{User}
use secure_messenger.Model.Chats.{
  HistoryVisibility, visibility_eq, Chat, Role, member, is_owner, ChatMember, InvitationStatus,
  accepted, is_pending, ChatInvitation,
}
use secure_messenger.Http.{
  crash, Result, ok, err, Action, pure, gets, query, or_raise, raise_if, modify, commit, ◌>>=◌,
  ◌>>◌, when,
}
use secure_messenger.Queries.{find_active_user, get_user, get_member, get_chat, get_group}
use secure_messenger.Serializers.{ChatResponse, serialize_chat, serialize_found}
use secure_messenger.Uploads.{validate_avatar_url}
use secure_messenger.Chats.Direct.{new_member}
use secure_messenger.Chats.Groups.{is_plain_member, group_and_actor, insert_member}

-- timedelta(days=7), in microseconds
abbrev pub invitation_lifetime : ℕ
invitation_lifetime = 604800000000

pub record InvitationResponse : Type 0 where
  pub id : ℕ
  pub chat_id : ℕ
  pub inviter : Text
  pub invitee : Text
  pub status : InvitationStatus
  pub created_at : ℕ
  pub expires_at : ℕ

unfoldable pub serialize_invitation : ChatInvitation → Db → Result InvitationResponse
serialize_invitation i db = elim (get_user i.inviter_user_id db) [
  | none ↦ err crash
  | some inviter ↦ elim (get_user i.invitee_user_id db) [
    | none ↦ err crash
    | some invitee ↦ ok (record {
      id = i.id;
      chat_id = i.chat_id;
      inviter = inviter.login;
      invitee = invitee.login;
      status = i.status;
      created_at = i.created_at;
      expires_at = i.expires_at;
    })
  ]
]

abbrev pub pending_for : ℕ → ℕ → ChatInvitation → Bool
pending_for chat_id invitee i =
    i.chat_id == chat_id && i.invitee_user_id == invitee && is_pending i.status

-- select(ChatInvitation).where(chat_id, invitee_user_id, status == "pending")
unfoldable pub find_pending : ℕ → ℕ → Db → Option ChatInvitation
find_pending chat_id invitee db = find (pending_for chat_id invitee) db.chat_invitations

-- session.get(ChatInvitation, id)
unfoldable pub get_invitation : ℕ → Db → Option ChatInvitation
get_invitation id db = find (λ i. i.id == id) db.chat_invitations

unfoldable pub insert_invitation : ChatInvitation → Db → Db
insert_invitation i db = record db { chat_invitations = db.chat_invitations ++ i ∷ [] }

-- The branches of `invite_group_member` on the pending invitation that was found. `fresh` is the
-- uuid of a new one.
unfoldable pub invite_or_reuse :
    ℕ → ℕ → ℕ → ℕ → ℕ → Option ChatInvitation → Action InvitationResponse
unfolding insert_invitation
invite_or_reuse fresh chat_id inviter invitee now (some old) = query (serialize_invitation old)
invite_or_reuse fresh chat_id inviter invitee now none = do
  modify (insert_invitation invitation)
  commit
  query (serialize_invitation invitation)
  where
    invitation : ChatInvitation
    invitation = record {
      id = fresh;
      chat_id = chat_id;
      inviter_user_id = inviter;
      invitee_user_id = invitee;
      status = InvitationStatus.pending;
      created_at = now;
      expires_at = now + invitation_lifetime;
    }

unfoldable pub invite_group_member : ℕ → ℕ → Text → User → ℕ → Action InvitationResponse
unfolding group_and_actor invite_or_reuse find_pending
invite_group_member fresh chat_id login current now = do
  (chat, actor) ← group_and_actor chat_id current.id
  found ← gets (find_active_user login)
  invitee ← or_raise found 404
  membership ← gets (get_member chat_id invitee.id)
  raise_if (is_some membership) 409
  pending_one ← gets (find_pending chat_id invitee.id)
  invite_or_reuse fresh chat_id current.id invitee.id now pending_one

-- The invitations that `list_pending_invitations` shows, before they are sorted by age.
unfoldable pub open_invitations : ℕ → ℕ → Db → List ChatInvitation
open_invitations invitee now db =
    filter (λ i. i.invitee_user_id == invitee && is_pending i.status && ltb now i.expires_at)
      db.chat_invitations

-- `invitation.status = "accepted"`
unfoldable pub set_accepted : ℕ → Db → Db
set_accepted id db = record db {
  chat_invitations =
      update_where (λ i. i.id == id) (λ i. record i { status = accepted }) db.chat_invitations;
}

-- The new membership of `accept_group_invitation`, where there is none.
unfoldable pub join_group : ℕ → ℕ → ℕ → Option ChatMember → Action Unit
unfolding insert_member new_member
join_group chat_id user_id now membership =
    when (is_none membership) (modify (insert_member (new_member chat_id user_id member now)))

unfoldable pub accept_group_invitation : ℕ → User → ℕ → Action ChatResponse
unfolding get_invitation join_group set_accepted serialize_found
accept_group_invitation id current now = do
  found ← gets (get_invitation id)
  invitation ← or_raise found 404
  raise_if (not (invitation.invitee_user_id == current.id)) 404
  raise_if (not (is_pending invitation.status)) 409
  raise_if (leb invitation.expires_at now) 410
  membership ← gets (get_member invitation.chat_id current.id)
  join_group invitation.chat_id current.id now membership
  modify (set_accepted id)
  commit
  reloaded ← gets (get_chat invitation.chat_id)
  query (serialize_found serialize_chat reloaded)

-- GroupUpdateRequest: `avatar_url` is `none` where the request does not set the field.
pub record GroupUpdateRequest : Type 0 where
  pub avatar_url : Option (Option Text)
  pub history_visibility : Option HistoryVisibility

unfoldable pub change_chat : ℕ → (Chat → Chat) → Db → Db
change_chat id f db = record db { chats = update_where (λ c. c.id == id) f db.chats }

unfoldable pub set_avatar : ℕ → Option (Option Text) → Action Unit
unfolding change_chat
set_avatar id none = pure tt
set_avatar id (some value) = do
  url ← query (λ _. validate_avatar_url value)
  modify (change_chat id (λ c. record c { avatar_url = url }))

unfoldable pub set_visibility : ℕ → Role → Chat → Option HistoryVisibility → Action Unit
unfolding change_chat
set_visibility id role chat none = pure tt
set_visibility id role chat (some v) = do
  raise_if (not (is_owner role)) 403
  when (not (visibility_eq chat.history_visibility v))
      (modify (change_chat id (λ c. record c { history_visibility = v })))

unfoldable pub update_group : ℕ → GroupUpdateRequest → User → Action ChatResponse
unfolding set_avatar set_visibility serialize_found
update_group chat_id request current = do
  found ← gets (get_group chat_id)
  chat ← or_raise found 404
  membership ← gets (get_member chat_id current.id)
  m ← or_raise membership 404
  raise_if (is_plain_member m.role) 403
  set_avatar chat_id request.avatar_url
  set_visibility chat_id m.role chat request.history_visibility
  commit
  reloaded ← gets (get_chat chat_id)
  query (serialize_found serialize_chat reloaded)

-- `upload_group_avatar`; `saved` is what `save_image` gives, which the handler calls after the tests.
unfoldable pub upload_group_avatar : ℕ → Result Text → User → Action ChatResponse
unfolding group_and_actor change_chat serialize_found
upload_group_avatar chat_id saved current = do
  (chat, actor) ← group_and_actor chat_id current.id
  url ← query (λ _. saved)
  modify (change_chat chat_id (λ c. record c { avatar_url = some url }))
  commit
  reloaded ← gets (get_chat chat_id)
  query (serialize_found serialize_chat reloaded)
