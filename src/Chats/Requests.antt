-- ===== src/Chats/Requests.antt =====
-- The requests of app/routers/chats.py that change the tables, one after the other.
use secure_messenger.Prelude.{Text, ℕ, Bool, false, none, some}
use secure_messenger.Model.{Db}
use secure_messenger.Model.Accounts.{User}
use secure_messenger.Model.Chats.{is_owner}
use secure_messenger.Http.{Result, handle}
use secure_messenger.Queries.{find_active_user, get_member}
use secure_messenger.Chats.Direct.{create_direct_chat}
use secure_messenger.Chats.Groups.{
  GroupRole, GroupCreateRequest, create_group, add_group_member, remove_group_member, leave_group,
  transfer_group_ownership,
}
use secure_messenger.Chats.Invitations.{
  invite_group_member, accept_group_invitation, GroupUpdateRequest, update_group,
  upload_group_avatar,
}

pub data Call : Type 0 where
  open_direct : Text → Call
  create : GroupCreateRequest → Call
  add : ℕ → Text → GroupRole → Call
  remove : ℕ → Text → Call
  leave : ℕ → Call
  transfer : ℕ → Text → Call
  invite : ℕ → Text → Call
  accept : ℕ → Call
  update : ℕ → GroupUpdateRequest → Call
  -- with what `save_image` gives
  upload_avatar : ℕ → Result Text → Call

-- A request of the user `current` at the time `now`; `fresh` is the uuid that it may use.
pub record Request : Type 0 where
  pub current : User
  pub now : ℕ
  pub fresh : ℕ
  pub call : Call

abbrev run_call : User → ℕ → ℕ → Call → Db → Db
run_call u now fresh (open_direct login) db =
    (handle (create_direct_chat (λ d. d) login u now) db).1
run_call u now fresh (create request) db = (handle (create_group request u now) db).1
run_call u now fresh (add c login role) db = (handle (add_group_member c login role u now) db).1
run_call u now fresh (remove c login) db = (handle (remove_group_member c login u) db).1
run_call u now fresh (leave c) db = (handle (leave_group c u) db).1
run_call u now fresh (transfer c login) db = (handle (transfer_group_ownership c login u) db).1
run_call u now fresh (invite c login) db = (handle (invite_group_member fresh c login u now) db).1
run_call u now fresh (accept id) db = (handle (accept_group_invitation id u now) db).1
run_call u now fresh (update c request) db = (handle (update_group c request u) db).1
run_call u now fresh (upload_avatar c saved) db = (handle (upload_group_avatar c saved u) db).1

-- The tables after a request, whether it succeeds or fails.
unfoldable pub serve : Request → Db → Db
serve r db = run_call r.current r.now r.fresh r.call db

-- The user with this login, if there is one, owns the chat.
unfoldable pub owned_by_login : ℕ → Text → Db → Bool
owned_by_login c login db = elim (find_active_user login db) [
  | none ↦ false
  | some u ↦ elim (get_member c u.id db) [ none ↦ false | some m ↦ is_owner m.role ]
]

abbrev names_owner : Call → Db → Bool
names_owner (add c login role) db = owned_by_login c login db
names_owner _ db = false

-- POST /chats/groups/{chat_id}/members that names the owner of the group.
unfoldable pub demotes_owner : Request → Db → Bool
demotes_owner r db = names_owner r.call db
