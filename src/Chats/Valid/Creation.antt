-- ===== src/Chats/Valid/Creation.antt =====
-- The larger changes that keep the invariant: a new owner, and new settings of a chat.
use secure_messenger.Prelude.{
  ◌==◌, All, All-mono, update_where, count-update_where_outside, All-update_where, ℕ, ◌<◌, ◌≡◌,
  Bool, true, false, some, List, arith,
}
use secure_messenger.Model.{Db}
use secure_messenger.Model.Chats.{DirectKey, Chat, owner, admin, is_owner, ChatMember}
use secure_messenger.Queries.{member_key, get_member, get_group}
use secure_messenger.Chats.Direct.{has_direct_key}
use secure_messenger.Chats.Groups.{set_role}
use secure_messenger.Chats.Invitations.{change_chat}
use secure_messenger.Chats.Owners.{
  owners, with_role, owners-update, IsKeyed-update, found_weight-le-owners, find-update_other,
}
use secure_messenger.Chats.Effects.Settings.{IsCosmetic}
use secure_messenger.Chats.Valid.{IsValid}

-- A change that keeps ids and direct keys keeps every count that looks at these alone.
owner_counts-update :
    (p : Chat → Bool) (f : Chat → Chat) (ms : List ChatMember) (cs : List Chat)
    → IsCosmetic f
    → All (λ c. owners c.id ms ≡ 1) cs
    → All (λ c. owners c.id ms ≡ 1) (update_where p f cs)
owner_counts-update p f ms cs cosmetic h =
    All-update_where (λ (c : Chat). owners c.id ms ≡ 1) p f cs (λ c e. rw (cosmetic c).0 e) h

has_direct_key-update :
    (k : DirectKey) (f : Chat → Chat) (x : Chat)
    → IsCosmetic f
    → has_direct_key k (f x) ≡ has_direct_key k x
has_direct_key-update k f x cosmetic = rw (cosmetic x).1

module _ (db : Db) (v : IsValid db) where
  pub change_chat-IsValid : (c : ℕ) (f : Chat → Chat) → IsCosmetic f → IsValid (change_chat c f db)
  unfolding change_chat
  change_chat-IsValid c f cosmetic = record {
    keyed = v.keyed;
    members_old = v.members_old;
    chats_old =
        All-update_where (λ (x : Chat). x.id < db.next_chat_id) (λ x. x.id == c) f db.chats
          (λ x h. rw (cosmetic x).0 h) v.chats_old;
    invitations_old = v.invitations_old;
    one_owner =
        owner_counts-update (λ x. x.id == c) f db.chat_members db.chats cosmetic v.one_owner;
    users_keyed = v.users_keyed;
    direct_keys = λ k.
        rw
          (count-update_where_outside (λ (x : Chat). x.id == c) (has_direct_key k) f db.chats
            (λ x _. has_direct_key-update k f x cosmetic))
          (v.direct_keys k);
  }

  -- The new owner of a transfer was no owner before.
  pub transfer-IsValid :
      (c a t : ℕ) (g : Chat) (am tm : ChatMember)
      → get_group c db ≡ some g
      → get_member c a db ≡ some am
      → is_owner am.role ≡ true
      → get_member c t db ≡ some tm
      → (t == a) ≡ false
      → IsValid (set_role c t owner (set_role c a admin db))
  unfolding set_role get_member get_group
  transfer-IsValid c a t g am tm eg ea is_own et apart = record {
    keyed = IsKeyed-update c t owner _ (IsKeyed-update c a admin db.chat_members v.keyed);
    members_old =
        All-update_where old (member_key c t) (with_role owner) lowered (λ x h. h)
          (All-update_where old (member_key c a) (with_role admin) db.chat_members (λ x h. h)
            v.members_old);
    chats_old = v.chats_old;
    invitations_old = v.invitations_old;
    one_owner =
        All-mono (λ (x : Chat). owners x.id db.chat_members ≡ 1)
          (λ (x : Chat). owners x.id raised ≡ 1) db.chats (λ x e. counted x.id e) v.one_owner;
    users_keyed = v.users_keyed;
    direct_keys = v.direct_keys;
  }
    where
      old : ChatMember → Type 0
      old x = x.chat_id < db.next_chat_id

      lowered : List ChatMember
      lowered = update_where (member_key c a) (with_role admin) db.chat_members

      raised : List ChatMember
      raised = update_where (member_key c t) (with_role owner) lowered

      counted : (d : ℕ) → owners d db.chat_members ≡ 1 → owners d raised ≡ 1
      counted d e = ground (
        arith,
        owners-update c a d admin db.chat_members v.keyed,
        owners-update c t d owner lowered (IsKeyed-update c a admin db.chat_members v.keyed),
        find-update_other c a t admin db.chat_members apart,
        found_weight-le-owners c t lowered,
      )
