-- ===== src/Chats/Ownership.antt =====
-- Every chat has one owner, through all requests but one: the owner who sets their own role.
use secure_messenger.Prelude.{find_passes, All-find, Text, ℕ, ◌<◌, ◌≡◌, refl, false, some, arith}
use secure_messenger.Model.{Db}
use secure_messenger.Model.Accounts.{User}
use secure_messenger.Model.Chats.{member, is_owner, ChatMember, ChatInvitation}
use secure_messenger.Queries.{find_active_user, get_user, member_key, get_member}
use secure_messenger.Chats.Groups.{GroupRole, as_admin, as_member, role_of}
use secure_messenger.Chats.Effects.{leave_cases, remove_cases, add_cases, transfer_cases}
use secure_messenger.Chats.Effects.Creation.{direct_cases, group_cases, invite_cases, accept_cases}
use secure_messenger.Chats.Effects.Settings.{update_cases, upload_cases}
use secure_messenger.Chats.Valid.{
  IsValid, group-lt-next, set_role-IsValid, delete_member-IsValid, insert_member-IsValid,
  insert_invitation-IsValid, set_accepted-IsValid,
}
use secure_messenger.Chats.Valid.Creation.{change_chat-IsValid, transfer-IsValid}
use secure_messenger.Chats.Valid.Fresh.{insert_direct-IsValid}
use secure_messenger.Chats.Valid.Groups.{insert_group-IsValid}
use secure_messenger.Chats.Requests.{
  Call, open_direct, create, add, remove, leave, transfer, invite, accept, update, Request, serve,
  owned_by_login, demotes_owner, upload_avatar,
}
use secure_messenger.Chats.Invitations.{get_invitation}

role_of_plain : (r : GroupRole) → is_owner (role_of r) ≡ false
unfolding role_of
role_of_plain as_admin = refl
role_of_plain as_member = refl

-- The owner is not the user that the request names.
not_owner :
    (c : ℕ) (login : Text) (u : User) (m : ChatMember) (db : Db)
    → owned_by_login c login db ≡ false
    → find_active_user login db ≡ some u
    → get_member c u.id db ≡ some m
    → is_owner m.role ≡ false
unfolding owned_by_login
not_owner c login u m db h e f = ground arith

member_user : (c u : ℕ) (a : ChatMember) (db : Db) → get_member c u db ≡ some a → a.user_id ≡ u
unfolding get_member
member_user c u a db e = ground (arith, find_passes (member_key c u) db.chat_members a e)

invitation-lt-next :
    (id : ℕ) (i : ChatInvitation) (db : Db)
    → IsValid db
    → get_invitation id db ≡ some i
    → i.chat_id < db.next_chat_id
unfolding get_invitation
invitation-lt-next id i db v e =
    All-find (λ (x : ChatInvitation). x.chat_id < db.next_chat_id) _ db.chat_invitations i
      v.invitations_old e

module _ (r : Request) (db : Db) (v : IsValid db) where
  open r use {current, now, fresh}

  by_call :
      (call : Call)
      → get_user current.id db ≡ some current
      → demotes_owner (record r { call = call }) db ≡ false
      → IsValid (serve (record r { call = call }) db)
  unfolding serve demotes_owner
  by_call (open_direct login) known ok_call =
      direct_cases IsValid db v (λ d. d) login current now v
        λ u apart absent. insert_direct-IsValid db _ current.id u.id now v apart absent
  by_call (create request) known ok_call =
      group_cases IsValid db v request current now
        λ avatar. insert_group-IsValid db request avatar current now v known
  by_call (add c login role) known ok_call =
      add_cases IsValid db v c login role current now
        (λ g u e _ absent.
          insert_member-IsValid db v c u.id now (role_of role) (group-lt-next v e) absent
            (role_of_plain role))
        (λ u m found there.
          set_role-IsValid db v c u.id (role_of role) m there
            (not_owner c login u m db ok_call found there) (role_of_plain role))
  by_call (remove c login) known ok_call =
      remove_cases IsValid db v c login current (delete_member-IsValid db v c)
  by_call (leave c) known ok_call =
      leave_cases IsValid db v c current (delete_member-IsValid db v c)
  by_call (transfer c login) known ok_call =
      transfer_cases IsValid db v c login current λ g a t eg ea own et apart.
        let k : a.user_id ≡ current.id = member_user c current.id a db ea in
        transfer-IsValid db v c a.user_id t.user_id g a t eg (cc (k, ea)) own et (cc (k, apart))
  by_call (invite c login) known ok_call =
      invite_cases IsValid db v fresh c login current now
        λ i g in_c e. insert_invitation-IsValid db v i (rw in_c (group-lt-next v e))
  by_call (accept id) known ok_call =
      accept_cases IsValid db v id current now
        (λ i found absent.
          set_accepted-IsValid _
            (insert_member-IsValid db v i.chat_id current.id now member
              (invitation-lt-next id i db v found) absent refl)
            id)
        (set_accepted-IsValid db v id)
  by_call (update c request) known ok_call =
      update_cases IsValid c (λ d f cosmetic w. change_chat-IsValid d w c f cosmetic) request
        current db v
  by_call (upload_avatar c saved) known ok_call =
      upload_cases IsValid c (λ d f cosmetic w. change_chat-IsValid d w c f cosmetic) saved current
        db v

-- From valid tables, every request of a user that the tables hold leaves valid tables, except POST
-- /chats/groups/{chat_id}/members naming the owner: in particular each chat has exactly one owner,
-- no membership occurs twice, and each pair of users has at most one direct chat.
pub serve-IsValid :
    (r : Request) (db : Db)
    → IsValid db
    → get_user r.current.id db ≡ some r.current
    → demotes_owner r db ≡ false
    → IsValid (serve r db)
serve-IsValid r db v known ok_call = by_call r db v r.call known ok_call
