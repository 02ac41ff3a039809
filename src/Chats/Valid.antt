-- ===== src/Chats/Valid.antt =====
-- The invariant of the chat tables, and the single changes that keep it.
pub mod Creation
pub mod Fresh
pub mod Groups
use secure_messenger.Prelude.{
  ◌==◌, find, count, All, find_passes, All-append, All-find, All-mono, All-update_where,
  All-delete_where, ℕ, ◌≤◌, ◌<◌, ◌≡◌, refl, ◌∙◌, false, ◌&&◌, none, some, List, [], ◌∷◌, arith,
}
use secure_messenger.Model.{Db}
use secure_messenger.Model.Accounts.{User}
use secure_messenger.Model.Chats.{
  is_group_type, DirectKey, Chat, Role, is_owner, ChatMember, accepted, ChatInvitation,
}
use secure_messenger.Queries.{member_key, get_member, get_group}
use secure_messenger.Chats.Direct.{has_direct_key, new_member}
use secure_messenger.Chats.Groups.{set_role, insert_member, delete_member}
use secure_messenger.Chats.Invitations.{insert_invitation, set_accepted}
use secure_messenger.Chats.Owners.{
  owners, IsKeyed, with_role, owners-update, owners-delete, IsKeyed-update, IsKeyed-delete,
  IsKeyed-append, Apart-one, owners-append_one,
}

-- No two users have the same id.
abbrev pub UserKeys : List User → Type 0
UserKeys [] = Unit
UserKeys (u ∷ us) = (find (λ v. v.id == u.id) us ≡ none) × UserKeys us

pub record IsValid (db : Db) : Type 0 where
  pub keyed : IsKeyed db.chat_members
  pub members_old : All (λ m. m.chat_id < db.next_chat_id) db.chat_members
  pub chats_old : All (λ c. c.id < db.next_chat_id) db.chats
  pub invitations_old : All (λ i. i.chat_id < db.next_chat_id) db.chat_invitations
  pub one_owner : All (λ c. owners c.id db.chat_members ≡ 1) db.chats
  pub users_keyed : UserKeys db.users
  pub direct_keys : (k : DirectKey) → count (has_direct_key k) db.chats ≤ 1

-- The group that a handler finds is older than the next one.
pub group-lt-next :
    {c : ℕ} {g : Chat} {db : Db} → IsValid db → get_group c db ≡ some g → c < db.next_chat_id
unfolding get_group
group-lt-next {c} {g} {db} v e =
    let old = All-find (λ (x : Chat). x.id < db.next_chat_id) _ db.chats g v.chats_old e in
    ground (arith, find_passes (λ (x : Chat). x.id == c && is_group_type x.type) db.chats g e)

module _ (db : Db) (v : IsValid db) where
  -- Tables in which every chat has as many owners as before.
  same_owners :
      (ms : List ChatMember)
      → ((d : ℕ) → owners d ms ≡ owners d db.chat_members)
      → All (λ c. owners c.id ms ≡ 1) db.chats
  same_owners ms h =
      All-mono (λ (c : Chat). owners c.id db.chat_members ≡ 1) (λ (c : Chat). owners c.id ms ≡ 1)
        db.chats (λ c e. h c.id ∙ e) v.one_owner

  pub set_role-IsValid :
      (c u : ℕ) (r : Role) (m : ChatMember)
      → get_member c u db ≡ some m
      → is_owner m.role ≡ false
      → is_owner r ≡ false
      → IsValid (set_role c u r db)
  unfolding set_role get_member
  set_role-IsValid c u r m e plain lower = record {
    keyed = IsKeyed-update c u r db.chat_members v.keyed;
    members_old =
        All-update_where (λ (x : ChatMember). x.chat_id < db.next_chat_id) (member_key c u)
          (with_role r) db.chat_members (λ x h. h) v.members_old;
    chats_old = v.chats_old;
    invitations_old = v.invitations_old;
    one_owner = same_owners _ λ d. ground (arith, owners-update c u d r db.chat_members v.keyed);
    users_keyed = v.users_keyed;
    direct_keys = v.direct_keys;
  }

  pub delete_member-IsValid :
      (c u : ℕ) (m : ChatMember)
      → get_member c u db ≡ some m
      → is_owner m.role ≡ false
      → IsValid (delete_member c u db)
  unfolding delete_member get_member
  delete_member-IsValid c u m e plain = record {
    keyed = IsKeyed-delete c u db.chat_members v.keyed;
    members_old =
        All-delete_where (λ (x : ChatMember). x.chat_id < db.next_chat_id) (member_key c u)
          db.chat_members v.members_old;
    chats_old = v.chats_old;
    invitations_old = v.invitations_old;
    one_owner = same_owners _ λ d. ground (arith, owners-delete c u d db.chat_members v.keyed);
    users_keyed = v.users_keyed;
    direct_keys = v.direct_keys;
  }

  pub insert_member-IsValid :
      (c u now : ℕ) (r : Role)
      → c < db.next_chat_id
      → get_member c u db ≡ none
      → is_owner r ≡ false
      → IsValid (insert_member (new_member c u r now) db)
  unfolding insert_member get_member new_member
  insert_member-IsValid c u now r old absent lower = record {
    keyed =
        IsKeyed-append db.chat_members _ v.keyed (refl, tt)
          (Apart-one (new_member c u r now) db.chat_members absent);
    members_old =
        All-append (λ (x : ChatMember). x.chat_id < db.next_chat_id) db.chat_members _ v.members_old
          (old, tt);
    chats_old = v.chats_old;
    invitations_old = v.invitations_old;
    one_owner =
        same_owners _
          λ d. ground (arith, owners-append_one d (new_member c u r now) db.chat_members);
    users_keyed = v.users_keyed;
    direct_keys = v.direct_keys;
  }

  pub insert_invitation-IsValid :
      (i : ChatInvitation) → i.chat_id < db.next_chat_id → IsValid (insert_invitation i db)
  unfolding insert_invitation
  insert_invitation-IsValid i old = record {
    keyed = v.keyed;
    members_old = v.members_old;
    chats_old = v.chats_old;
    invitations_old =
        All-append (λ (x : ChatInvitation). x.chat_id < db.next_chat_id) db.chat_invitations _
          v.invitations_old (old, tt);
    one_owner = v.one_owner;
    users_keyed = v.users_keyed;
    direct_keys = v.direct_keys;
  }

  pub set_accepted-IsValid : (id : ℕ) → IsValid (set_accepted id db)
  unfolding set_accepted
  set_accepted-IsValid id = record {
    keyed = v.keyed;
    members_old = v.members_old;
    chats_old = v.chats_old;
    invitations_old =
        All-update_where (λ (x : ChatInvitation). x.chat_id < db.next_chat_id) (λ x. x.id == id)
          (λ x. record x { status = accepted }) db.chat_invitations (λ x h. h) v.invitations_old;
    one_owner = v.one_owner;
    users_keyed = v.users_keyed;
    direct_keys = v.direct_keys;
  }
