-- ===== src/Chats/Valid/Fresh.antt =====
-- A new chat with its first members keeps the invariant.
use secure_messenger.Prelude.{
  ◌==◌, find, count, All, count-append, count_of_find-none, All-append, All-mono, ℕ, suc, ◌+◌, ◌≤◌,
  ◌<◌, ◌≡◌, refl, false, none, some, List, [], ◌∷◌, ◌++◌, arith,
}
use secure_messenger.Model.{Db}
use secure_messenger.Model.Chats.{DirectKey, Chat, ChatMember, ChatInvitation}
use secure_messenger.Queries.{member_key}
use secure_messenger.Chats.Direct.{has_direct_key, find_direct, new_member, insert_direct}
use secure_messenger.Chats.Owners.{
  is_owner_of, owners, IsKeyed, Apart, IsKeyed-append, owners_of_new,
}
use secure_messenger.Chats.Valid.{IsValid}

abbrev pub In : ℕ → List ChatMember → Type 0
In n ns = All (λ m. m.chat_id ≡ n) ns

-- Rows of another chat than those that a query looks for.
find_elsewhere :
    (n c u : ℕ) (ns : List ChatMember) → In n ns → c < n → find (member_key c u) ns ≡ none
find_elsewhere n c u [] h lt = refl
find_elsewhere n c u (m ∷ ns) h lt = ground (arith, find_elsewhere n c u ns h.1 lt)

owners_elsewhere : (n d : ℕ) (ns : List ChatMember) → In n ns → d < n → owners d ns ≡ 0
owners_elsewhere n d [] h lt = refl
owners_elsewhere n d (m ∷ ns) h lt = ground (arith, owners_elsewhere n d ns h.1 lt)

Apart-new : (n : ℕ) (ms ns : List ChatMember) → All (λ m. m.chat_id < n) ms → In n ns → Apart ms ns
Apart-new n [] ns h k = tt
Apart-new n (m ∷ ms) ns h k =
    (find_elsewhere n m.chat_id m.user_id ns k h.0, Apart-new n ms ns h.1 k)

abbrev pub with_chat : Chat → List ChatMember → Db → Db
with_chat x ns db = record db {
  chats = db.chats ++ x ∷ [];
  chat_members = db.chat_members ++ ns;
  next_chat_id = suc db.next_chat_id;
}

module _ (db : Db) (v : IsValid db) (x : Chat) (ns : List ChatMember) (new : x.id ≡ db.next_chat_id)
    (in_chat : In db.next_chat_id ns) (ns_keyed : IsKeyed ns)
    (ns_owner : owners db.next_chat_id ns ≡ 1)
    (keys_ok : (k : DirectKey) → count (has_direct_key k) (db.chats ++ x ∷ []) ≤ 1) where
  total : (d : ℕ) → owners d (db.chat_members ++ ns) ≡ owners d db.chat_members + owners d ns
  total d = count-append (is_owner_of d) db.chat_members ns

  old_owners :
      (d : ℕ)
      → d < db.next_chat_id
      → owners d db.chat_members ≡ 1
      → owners d (db.chat_members ++ ns) ≡ 1
  old_owners d lt e = omega (arith, total d, owners_elsewhere db.next_chat_id d ns in_chat lt)

  new_owners : owners x.id (db.chat_members ++ ns) ≡ 1
  new_owners = rw new (
      omega
        (arith, total db.next_chat_id, owners_of_new db.next_chat_id db.chat_members v.members_old))

  All-owners :
      (cs : List Chat)
      → All (λ c. c.id < db.next_chat_id) cs
      → All (λ c. owners c.id db.chat_members ≡ 1) cs
      → All (λ c. owners c.id (db.chat_members ++ ns) ≡ 1) cs
  All-owners [] h k = tt
  All-owners (c ∷ cs) h k = (old_owners c.id h.0 k.0, All-owners cs h.1 k.1)

  pub with_chat-IsValid : IsValid (with_chat x ns db)
  with_chat-IsValid = record {
    keyed =
        IsKeyed-append db.chat_members ns v.keyed ns_keyed
          (Apart-new db.next_chat_id db.chat_members ns v.members_old in_chat);
    members_old =
        All-append (λ (m : ChatMember). m.chat_id < suc db.next_chat_id) db.chat_members ns
          (All-mono (λ (m : ChatMember). m.chat_id < db.next_chat_id) _ db.chat_members
            (λ m h. omega arith) v.members_old)
          (All-mono (λ (m : ChatMember). m.chat_id ≡ db.next_chat_id) _ ns (λ m h. omega arith)
            in_chat);
    chats_old =
        All-append (λ (c : Chat). c.id < suc db.next_chat_id) db.chats (x ∷ [])
          (All-mono (λ (c : Chat). c.id < db.next_chat_id) _ db.chats (λ c h. omega arith)
            v.chats_old)
          (omega arith, tt);
    invitations_old =
        All-mono (λ (i : ChatInvitation). i.chat_id < db.next_chat_id) _ db.chat_invitations
          (λ i h. omega arith) v.invitations_old;
    one_owner =
        All-append (λ (c : Chat). owners c.id (db.chat_members ++ ns) ≡ 1) db.chats (x ∷ [])
          (All-owners db.chats v.chats_old v.one_owner) (new_owners, tt);
    users_keyed = v.users_keyed;
    direct_keys = keys_ok;
  }

-- A chat with no direct key, or with one that no chat has.
pub keys_group :
    (x : Chat) (cs : List Chat)
    → x.direct_key ≡ none
    → ((k : DirectKey) → count (has_direct_key k) cs ≤ 1)
    → (k : DirectKey) → count (has_direct_key k) (cs ++ x ∷ []) ≤ 1
keys_group x cs e h k = ground (arith, h k, count-append (has_direct_key k) cs (x ∷ []))

keys_direct :
    (j : DirectKey) (x : Chat) (cs : List Chat)
    → x.direct_key ≡ some j
    → find (has_direct_key j) cs ≡ none
    → ((k : DirectKey) → count (has_direct_key k) cs ≤ 1)
    → (k : DirectKey) → count (has_direct_key k) (cs ++ x ∷ []) ≤ 1
keys_direct j x cs e absent h k = ground (
  arith,
  h k,
  count-append (has_direct_key k) cs (x ∷ []),
  count_of_find-none (has_direct_key j) cs absent,
  same_key,
)
  where
    same_key :
        (j.low ≡ k.low)
        → (j.high ≡ k.high)
        → count (has_direct_key j) cs ≡ count (has_direct_key k) cs
    same_key p q = rw (p, q)

pub insert_direct-IsValid :
    (db : Db) (j : DirectKey) (a b now : ℕ)
    → IsValid db
    → (b == a) ≡ false
    → find_direct j db ≡ none
    → IsValid (insert_direct j a b now db)
unfolding insert_direct find_direct new_member
insert_direct-IsValid db j a b now v apart absent =
    with_chat-IsValid db v _ _ refl (refl, (refl, tt)) (ground arith, (refl, tt)) (ground arith)
      (keys_direct j _ db.chats refl absent v.direct_keys)
