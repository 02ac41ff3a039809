-- ===== src/Chats/Owners.antt =====
-- Memberships: the primary key of the table `chat_members`, and the number of owners of a chat.
use secure_messenger.Prelude.{
  ◌==◌, if◌then◌else◌, find, count, All, count-append, update_where, delete_where, ℕ, ◌+◌, ◌≤◌, ◌<◌,
  ◌≡◌, refl, Bool, false, ◌&&◌, Option, none, some, List, [], ◌∷◌, ◌++◌, arith,
}
use secure_messenger.Model.Chats.{Role, is_owner, ChatMember}
use secure_messenger.Queries.{member_key}

-- The owners of a chat.
abbrev pub is_owner_of : ℕ → ChatMember → Bool
is_owner_of chat_id m = m.chat_id == chat_id && is_owner m.role

abbrev pub owners : ℕ → List ChatMember → ℕ
owners chat_id ms = count (is_owner_of chat_id) ms

-- 1 for an owner, 0 for another role.
abbrev pub owner_weight : Role → ℕ
owner_weight r = if is_owner r then 1 else 0

-- The same, for a row that counts only in the chat `chat_id`.
abbrev pub weight_in : ℕ → ℕ → Role → ℕ
weight_in chat_id d r = if d == chat_id then owner_weight r else 0

-- No two rows have the same primary key.
abbrev pub IsKeyed : List ChatMember → Type 0
IsKeyed [] = Unit
IsKeyed (m ∷ ms) = (find (member_key m.chat_id m.user_id) ms ≡ none) × IsKeyed ms

abbrev pub with_role : Role → ChatMember → ChatMember
with_role r m = record m { role = r }

module _ (c u : ℕ) where
  owners-update_absent :
      (d : ℕ) (r : Role) (ms : List ChatMember)
      → find (member_key c u) ms ≡ none
      → owners d (update_where (member_key c u) (with_role r) ms) ≡ owners d ms
  owners-update_absent d r [] h = refl
  owners-update_absent d r (m ∷ ms) h = ground (arith, owners-update_absent d r ms)

  owners-delete_absent :
      (d : ℕ) (ms : List ChatMember)
      → find (member_key c u) ms ≡ none
      → owners d (delete_where (member_key c u) ms) ≡ owners d ms
  owners-delete_absent d [] h = refl
  owners-delete_absent d (m ∷ ms) h = ground (arith, owners-delete_absent d ms)

  find-update_role :
      (v w : ℕ) (r : Role) (ms : List ChatMember)
      → find (member_key v w) ms ≡ none
      → find (member_key v w) (update_where (member_key c u) (with_role r) ms) ≡ none
  find-update_role v w r [] h = refl
  find-update_role v w r (m ∷ ms) h = ground (arith, find-update_role v w r ms)

  find-delete_none :
      (v w : ℕ) (ms : List ChatMember)
      → find (member_key v w) ms ≡ none
      → find (member_key v w) (delete_where (member_key c u) ms) ≡ none
  find-delete_none v w [] h = refl
  find-delete_none v w (m ∷ ms) h = ground (arith, find-delete_none v w ms)

-- What the row that a query found, if any, adds to the owners of the chat `d`.
abbrev pub found_weight : ℕ → ℕ → Option ChatMember → ℕ
found_weight c d none = 0
found_weight c d (some m) = weight_in c d m.role

-- What it adds once its role is `r`.
abbrev pub new_weight : ℕ → ℕ → Role → Option ChatMember → ℕ
new_weight c d r none = 0
new_weight c d r (some m) = weight_in c d r

module _ (c u : ℕ) where
  pub owners-update :
      (d : ℕ) (r : Role) (ms : List ChatMember)
      → IsKeyed ms
      → owners d (update_where (member_key c u) (with_role r) ms)
          + found_weight c d (find (member_key c u) ms)
        ≡ owners d ms + new_weight c d r (find (member_key c u) ms)
  owners-update d r [] k = refl
  owners-update d r (x ∷ ms) k =
      ground (arith, owners-update d r ms k.1, owners-update_absent c u d r ms)

  pub owners-delete :
      (d : ℕ) (ms : List ChatMember)
      → IsKeyed ms
      → owners d (delete_where (member_key c u) ms) + found_weight c d (find (member_key c u) ms)
        ≡ owners d ms
  owners-delete d [] k = refl
  owners-delete d (x ∷ ms) k = ground (arith, owners-delete d ms k.1, owners-delete_absent c u d ms)

  pub IsKeyed-update :
      (r : Role) (ms : List ChatMember)
      → IsKeyed ms
      → IsKeyed (update_where (member_key c u) (with_role r) ms)
  IsKeyed-update r [] k = tt
  IsKeyed-update r (m ∷ ms) k =
      ground (arith, IsKeyed-update r ms k.1, find-update_role c u m.chat_id m.user_id r ms k.0)

  pub IsKeyed-delete :
      (ms : List ChatMember) → IsKeyed ms → IsKeyed (delete_where (member_key c u) ms)
  IsKeyed-delete [] k = tt
  IsKeyed-delete (m ∷ ms) k =
      ground (arith, IsKeyed-delete ms k.1, find-delete_none c u m.chat_id m.user_id ms k.0)

-- Rows that agree with one row of a keyed table on the key.
find-append_none :
    (v w : ℕ) (ms ns : List ChatMember)
    → find (member_key v w) ms ≡ none
    → find (member_key v w) ns ≡ none
    → find (member_key v w) (ms ++ ns) ≡ none
find-append_none v w [] ns h k = k
find-append_none v w (m ∷ ms) ns h k = ground (arith, find-append_none v w ms ns)

-- Every row of `ms` has a key that no row of `ns` has.
abbrev pub Apart : List ChatMember → List ChatMember → Type 0
Apart ms ns = All (λ m. find (member_key m.chat_id m.user_id) ns ≡ none) ms

pub IsKeyed-append :
    (ms ns : List ChatMember) → IsKeyed ms → IsKeyed ns → Apart ms ns → IsKeyed (ms ++ ns)
IsKeyed-append [] ns k l a = l
IsKeyed-append (m ∷ ms) ns k l a =
    (find-append_none m.chat_id m.user_id ms ns k.0 a.0, IsKeyed-append ms ns k.1 l a.1)

-- One new row, whose key is not in the table.
pub Apart-one :
    (n : ChatMember) (ms : List ChatMember)
    → find (member_key n.chat_id n.user_id) ms ≡ none
    → Apart ms (n ∷ [])
Apart-one n [] h = tt
Apart-one n (m ∷ ms) h = (ground arith, Apart-one n ms (ground arith))

pub found_weight-le-owners :
    (c u : ℕ) (ms : List ChatMember) → found_weight c c (find (member_key c u) ms) ≤ owners c ms
found_weight-le-owners c u [] = omega arith
found_weight-le-owners c u (m ∷ ms) = ground (arith, found_weight-le-owners c u ms)

-- Setting the role of one user leaves the other rows as they are.
pub find-update_other :
    (c u v : ℕ) (r : Role) (ms : List ChatMember)
    → (v == u) ≡ false
    → find (member_key c v) (update_where (member_key c u) (with_role r) ms)
      ≡ find (member_key c v) ms
find-update_other c u v r [] h = refl
find-update_other c u v r (m ∷ ms) h = ground (arith, find-update_other c u v r ms h)

pub owners-append_one :
    (d : ℕ) (m : ChatMember) (ms : List ChatMember)
    → owners d (ms ++ m ∷ []) ≡ owners d ms + weight_in d m.chat_id m.role
owners-append_one d m ms = ground (arith, count-append (is_owner_of d) ms (m ∷ []))

-- A chat whose id no row has yet has no owners.
pub owners_of_new : (n : ℕ) (ms : List ChatMember) → All (λ m. m.chat_id < n) ms → owners n ms ≡ 0
owners_of_new n [] h = refl
owners_of_new n (m ∷ ms) h = ground (arith, owners_of_new n ms h.1)

pub find_of_new :
    (n u : ℕ) (ms : List ChatMember) → All (λ m. m.chat_id < n) ms → find (member_key n u) ms ≡ none
find_of_new n u [] h = refl
find_of_new n u (m ∷ ms) h = ground (arith, find_of_new n u ms h.1)
