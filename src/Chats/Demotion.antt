-- ===== src/Chats/Demotion.antt =====
-- The request that breaks the rule of one owner: POST /chats/groups/{chat_id}/members in which the
-- owner names themself.
use secure_messenger.Prelude.{
  ◌==◌, find_passes, All-find, ℕ, ◌≡◌, refl, true, false, ◌&&◌, Option, none, some, arith,
}
use secure_messenger.Model.{Db}
use secure_messenger.Model.Accounts.{User}
use secure_messenger.Model.Chats.{is_group_type, Chat, is_owner, ChatMember}
use secure_messenger.Http.{Result, ok, err, Session, gets, query, commit, ◌>>=◌, ◌>>◌, handle}
use secure_messenger.Queries.{find_active_user, get_member, get_chat, get_group}
use secure_messenger.Chats.Groups.{
  GroupRole, as_admin, as_member, role_of, set_role, put_member, add_group_member,
}
use secure_messenger.Http.Ends.{
  Ends, Ends-gets, After, Ends-bind, Ends-commit, Ends-modify_last, Ends-query_last, Ends-branch,
  handle_by, Ends-weaken, Ends-found, Ends-passed,
}
use secure_messenger.Serializers.{serialize_chat, serialize_found}
use secure_messenger.Chats.Effects.Actor.{actor_known}
use secure_messenger.Chats.Owners.{owners, owners-update}
use secure_messenger.Chats.Valid.{IsValid}

role_of_plain : (r : GroupRole) → is_owner (role_of r) ≡ false
unfolding role_of
role_of_plain as_admin = refl
role_of_plain as_member = refl

module _ (c : ℕ) (g : Chat) (current : User) (m : ChatMember) (role : GroupRole) (now : ℕ) (db : Db)
    (is_group : get_group c db ≡ some g) (known : find_active_user current.login db ≡ some current)
    (joined : get_member c current.id db ≡ some m) (owns : is_owner m.role ≡ true) where
  own_row : (a : ChatMember) → get_member c current.id db ≡ some a → is_owner a.role ≡ true
  own_row a e = ground arith

  put_self :
      (a : ChatMember) (o : Option ChatMember)
      → get_member c current.id db ≡ o
      → is_owner a.role ≡ true
      → Ends
          (put_member c current.id (role_of role) a now o)
          (record { committed = db; working = db })
          (λ r t. (r ≡ ok tt) × (t.working ≡ set_role c current.id (role_of role) db))
  unfolding put_member role_of
  put_self a none f own = absurd (ground arith)
  put_self a (some x) f own =
      Ends-branch _ _ _ (λ _. Ends-passed _ _ _ (ground arith) (Ends-modify_last _ (refl, refl)))
        (λ h. absurd (ground (arith, own_row x f)))

  saved :
      (r : Result Unit) (t : Session)
      → (r ≡ ok tt) × (t.working ≡ set_role c current.id (role_of role) db)
      → After
          (λ _. commit >> (gets (get_chat c) >>= λ x. query (serialize_found serialize_chat x)))
          (λ r t. t.committed ≡ set_role c current.id (role_of role) db)
          r
          t
  saved (ok x) t h = Ends-commit _ (Ends-gets _ _ (Ends-query_last _ h.1))
  saved (err e) t h = absurd (ground arith)

  demotion_sets_role :
      (handle (add_group_member c current.login role current now) db).1
      ≡ set_role c current.id (role_of role) db
  unfolding add_group_member
  demotion_sets_role =
      handle_by (λ r t. t ≡ set_role c current.id (role_of role) db) _ _
        (actor_known _ c current.id g m is_group joined (ground arith) (
          Ends-passed _ _ _ (ground arith) (
            Ends-gets _ _ (
              Ends-found _ _ _ current known
                (Ends-gets _ _ (Ends-bind _ _ (Ends-weaken (put_self m _ refl owns) saved)))))))

  -- If the owner of a group names themself in POST /chats/groups/{chat_id}/members, then whatever
  -- role they ask for, the group has no owner afterwards.
  pub demotion_leaves_no_owner :
      IsValid db
      → owners c (handle (add_group_member c current.login role current now) db).1.chat_members ≡ 0
  demotion_leaves_no_owner v = rw demotion_sets_role (no_owner v)
    where
      one : IsValid db → owners g.id db.chat_members ≡ 1
      one v =
          unfold get_group in
          All-find (λ (x : Chat). owners x.id db.chat_members ≡ 1) _ db.chats g v.one_owner is_group

      same_id : g.id ≡ c
      same_id =
          unfold get_group in
          ground (
            arith,
            find_passes (λ (x : Chat). x.id == c && is_group_type x.type) db.chats g is_group,
          )

      no_owner : IsValid db → owners c (set_role c current.id (role_of role) db).chat_members ≡ 0
      no_owner v =
          unfold set_role get_member in
          ground (
            arith,
            one v,
            same_id,
            role_of_plain role,
            owners-update c current.id c (role_of role) db.chat_members v.keyed,
          )
