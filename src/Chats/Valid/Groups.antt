-- ===== src/Chats/Valid/Groups.antt =====
-- A new group keeps the invariant: its members have different ids, and the creator is not among
-- those that were asked for.
use mathlib.Core.Option
use secure_messenger.Prelude.{
  ◌==◌, find, filter, Text, text_eq, text_in, strip, text_eq_sym, ℕ, ◌≡◌, refl, ap, Bool, false,
  ◌&&◌, not, Option, none, some, List, [], ◌∷◌, arith,
}
use secure_messenger.Model.{Db}
use secure_messenger.Model.Accounts.{User}
use secure_messenger.Queries.{get_user, member_key}
use secure_messenger.Chats.Direct.{new_member}
use secure_messenger.Chats.Groups.{
  GroupCreateRequest, add_login, requested_logins, users_with_logins, new_members, insert_group,
}
use secure_messenger.Chats.Owners.{owners, IsKeyed}
use secure_messenger.Chats.Valid.{UserKeys, IsValid}
use secure_messenger.Chats.Valid.Fresh.{In, with_chat-IsValid, keys_group}

module _ (n now : ℕ) where
  find-new_members :
      (u : ℕ) (us : List User)
      → find (λ v. v.id == u) us ≡ none
      → find (member_key n u) (new_members n now us) ≡ none
  unfolding new_members new_member
  find-new_members u [] h = refl
  find-new_members u (v ∷ us) h = ground (arith, find-new_members u us)

  IsKeyed-new_members : (us : List User) → UserKeys us → IsKeyed (new_members n now us)
  unfolding new_members new_member
  IsKeyed-new_members [] h = tt
  IsKeyed-new_members (u ∷ us) h = (find-new_members u.id us h.0, IsKeyed-new_members us h.1)

  In-new_members : (us : List User) → In n (new_members n now us)
  unfolding new_members new_member
  In-new_members [] = tt
  In-new_members (u ∷ us) = (refl, In-new_members us)

  owners-new_members : (us : List User) → owners n (new_members n now us) ≡ 0
  unfolding new_members new_member
  owners-new_members [] = refl
  owners-new_members (u ∷ us) = ground (arith, owners-new_members us)

-- The users that a filter leaves have different ids, and not the id of one that it drops.
find_id-filter :
    (p : User → Bool) (k : ℕ) (us : List User)
    → find (λ v. v.id == k) us ≡ none
    → find (λ v. v.id == k) (filter p us) ≡ none
find_id-filter p k [] h = refl
find_id-filter p k (u ∷ us) h = ground (arith, find_id-filter p k us)

UserKeys-filter : (p : User → Bool) (us : List User) → UserKeys us → UserKeys (filter p us)
UserKeys-filter p [] h = tt
UserKeys-filter p (u ∷ us) h =
    ground (arith, UserKeys-filter p us h.1, find_id-filter p u.id us h.0)

dropped-filter :
    (p : User → Bool) (c : User) (us : List User)
    → UserKeys us
    → find (λ v. v.id == c.id) us ≡ some c
    → p c ≡ false
    → find (λ v. v.id == c.id) (filter p us) ≡ none
dropped-filter p c [] h e q = refl
dropped-filter p c (u ∷ us) h e q = ground (
  arith,
  dropped-filter p c us h.1,
  find_id-filter p u.id us h.0,
  ap (λ (o : Option User). Option.map p o) e,
)

-- The creator's own login is not among the requested ones.
own_login-add :
    (own t : Text) (ts : List Text)
    → text_eq t own ≡ false
    → text_in own ts ≡ false
    → text_in own (add_login t ts) ≡ false
unfolding add_login
own_login-add own t ts h k = ground (arith, text_eq_sym own t)

own_login-requested : (own : Text) (ls : List Text) → text_in own (requested_logins own ls) ≡ false
unfolding requested_logins
own_login-requested own [] = refl
own_login-requested own (l ∷ ls) =
    ground
      (arith, own_login-requested own ls, own_login-add own (strip l) (requested_logins own ls))

pub insert_group-IsValid :
    (db : Db) (request : GroupCreateRequest) (avatar : Option Text) (current : User) (now : ℕ)
    → IsValid db
    → get_user current.id db ≡ some current
    → IsValid (
        insert_group request avatar current.id
          (users_with_logins (requested_logins current.login request.member_logins) db)
          now
          db)
unfolding insert_group users_with_logins new_member get_user
insert_group-IsValid db request avatar current now v known =
    with_chat-IsValid db v _ _ refl (refl, In-new_members db.next_chat_id now users)
      (
        find-new_members db.next_chat_id now current.id users not_asked,
        IsKeyed-new_members db.next_chat_id now users
            (UserKeys-filter asked db.users v.users_keyed),
      )
      (ground (arith, owners-new_members db.next_chat_id now users))
      (keys_group _ db.chats refl v.direct_keys)
  where
    logins : List Text
    logins = requested_logins current.login request.member_logins

    asked : User → Bool
    asked u = text_in u.login logins && u.is_active && not u.is_placeholder

    users : List User
    users = filter asked db.users

    not_asked : find (λ u. u.id == current.id) users ≡ none
    not_asked =
        dropped-filter asked current db.users v.users_keyed known
          (ground (arith, own_login-requested current.login request.member_logins))
