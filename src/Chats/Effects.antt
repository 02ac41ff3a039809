-- ===== src/Chats/Effects.antt =====
-- What each request about a group can do to the tables: one theorem per handler, with a case for
-- every way in which the request leaves the tables.
pub mod Actor
pub mod Creation
pub mod Settings
use secure_messenger.Prelude.{
  ◌==◌, drop, find_passes, Text, ℕ, ◌≡◌, refl, true, false, Option, none, some, arith,
}
use secure_messenger.Model.{Db}
use secure_messenger.Model.Accounts.{User}
use secure_messenger.Model.Chats.{Chat, Role, owner, admin, is_owner, ChatMember}
use secure_messenger.Http.{Result, ok, err, Session, gets, query, commit, ◌>>=◌, ◌>>◌, handle}
use secure_messenger.Http.Ends.{
  Ends, Ends-gets, Ends-or_raise, After, Ends-bind, Ends-raise_if, Ends-modify, Ends-commit,
  Ends-commit_last, Ends-modify_last, Ends-pure_last, Ends-query_last, Ends-branch, handle_by,
  Ends-weaken, Keeps,
}
use secure_messenger.Serializers.{serialize_chat, serialize_found}
use secure_messenger.Queries.{
  find_user, find_active_user, member_key, get_member, get_chat, get_group,
}
use secure_messenger.Chats.Direct.{new_member}
use secure_messenger.Chats.Groups.{
  GroupRole, role_of, set_role, insert_member, delete_member, put_member, add_group_member,
  drop_member, remove_group_member, leave_group, member_with_login, transfer_group_ownership,
}
use secure_messenger.Chats.Effects.Actor.{actor_ends}

-- The target of a transfer is the row that its own key finds.
target_key :
    (c : ℕ) (o : Option User) (t : ChatMember) (db : Db)
    → member_with_login c o db ≡ some t
    → get_member c t.user_id db ≡ some t
unfolding member_with_login get_member
target_key c none t db e = absurd (ground arith)
target_key c (some u) t db e = ground (arith, find_passes (member_key c u.id) db.chat_members t)

module _ (P : Db → Type 0) (db : Db) (same : P db) where
  pub leave_cases :
      (c : ℕ) (current : User)
      → ((u : ℕ) (m : ChatMember)
          → get_member c u db ≡ some m
          → is_owner m.role ≡ false
          → P (delete_member c u db))
      → P (handle (leave_group c current) db).1
  unfolding leave_group
  leave_cases c current gone =
      handle_by (λ r t. P t) _ _
        (Ends-gets _ _ (
          Ends-or_raise _ _ _ (λ _. same)
            λ g _. Ends-gets _ _ (
              Ends-or_raise _ _ _ (λ _. same)
                λ m found.
                  Ends-raise_if _ _ _ (λ _. same)
                    λ plain. Ends-modify _ _ (Ends-commit_last (gone current.id m found plain)))))

  pub remove_cases :
      (c : ℕ) (login : Text) (current : User)
      → ((u : ℕ) (m : ChatMember)
          → get_member c u db ≡ some m
          → is_owner m.role ≡ false
          → P (delete_member c u db))
      → P (handle (remove_group_member c login current) db).1
  unfolding remove_group_member
  remove_cases c login current gone =
      handle_by (λ r t. P t) _ _
        (actor_ends _ c current.id (λ _. same)
          λ g a _ _ _.
            Ends-gets _ _
              (Ends-or_raise _ _ _ (λ _. same) λ u _. Ends-gets _ _ (drop u.id a _ refl)))
    where
      drop :
          (u : ℕ) (a : ChatMember) (o : Option ChatMember)
          → get_member c u db ≡ o
          → Ends
              (drop_member c u a o)
              (record { committed = db; working = db })
              (λ r t. P t.committed)
      drop u a none e = unfold drop_member in Ends-pure_last _ same
      drop u a (some m) e =
          unfold drop_member in
          Ends-raise_if _ _ _ (λ _. same)
            λ plain.
              Ends-raise_if _ _ _ (λ _. same)
                λ _. Ends-modify _ _ (Ends-commit_last (gone u m e plain))

  -- The branches on the membership of the user to be added.
  put_ends :
      (c : ℕ) (role : Role) (a : ChatMember) (now : ℕ) (u : ℕ)
      → (get_member c u db ≡ none → P (insert_member (new_member c u role now) db))
      → ((m : ChatMember) → get_member c u db ≡ some m → P (set_role c u role db))
      → (o : Option ChatMember) → get_member c u db ≡ o
      → Ends (put_member c u role a now o) (record { committed = db; working = db }) (Keeps P)
  unfolding put_member
  put_ends c role a now u inserted changed none absent = Ends-modify_last _ (same, inserted absent)
  put_ends c role a now u inserted changed (some m) there =
      Ends-branch _ _ _
        (λ _. Ends-raise_if _ _ _ (λ _. same) λ _. Ends-modify_last _ (same, changed m there))
        (λ _. Ends-pure_last _ (same, same))

  pub add_cases :
      (c : ℕ) (login : Text) (role : GroupRole) (current : User) (now : ℕ)
      → ((g : Chat) (u : User)
          → get_group c db ≡ some g
          → find_active_user login db ≡ some u
          → get_member c u.id db ≡ none
          → P (insert_member (new_member c u.id (role_of role) now) db))
      → ((u : User) (m : ChatMember)
          → find_active_user login db ≡ some u
          → get_member c u.id db ≡ some m
          → P (set_role c u.id (role_of role) db))
      → P (handle (add_group_member c login role current now) db).1
  unfolding add_group_member
  add_cases c login role current now inserted changed =
      handle_by (λ r t. P t) _ _
        (actor_ends _ c current.id (λ _. same)
          λ g a e _ _.
            Ends-raise_if _ _ _ (λ _. same)
              λ _. Ends-gets _ _ (
                Ends-or_raise _ _ _ (λ _. same)
                  λ u found. Ends-gets _ _ (
                    Ends-bind _ _ (
                      Ends-weaken
                        (put_ends c (role_of role) a now u.id (inserted g u e found)
                          (λ m there. changed u m found there) _ refl)
                        (finish c)))))
    where
      finish :
          (c : ℕ) (r : Result Unit) (t : Session)
          → Keeps P r t
          → After
              (λ _. commit >> (gets (get_chat c) >>= λ x. query (serialize_found serialize_chat x)))
              (λ r t. P t.committed)
              r
              t
      finish c (err e) t h = h
      finish c (ok a) t h = Ends-commit _ (Ends-gets _ _ (Ends-query_last _ h.1))

  pub transfer_cases :
      (c : ℕ) (login : Text) (current : User)
      → ((g : Chat) (a t : ChatMember)
          → get_group c db ≡ some g
          → get_member c current.id db ≡ some a
          → is_owner a.role ≡ true
          → get_member c t.user_id db ≡ some t
          → (t.user_id == current.id) ≡ false
          → P (set_role c t.user_id owner (set_role c a.user_id admin db)))
      → P (handle (transfer_group_ownership c login current) db).1
  unfolding transfer_group_ownership
  transfer_cases c login current moved =
      handle_by (λ r t. P t) _ _
        (Ends-gets _ _ (
          Ends-or_raise _ _ _ (λ _. same)
            λ g e. Ends-gets _ _ (
              Ends-or_raise _ _ _ (λ _. same)
                λ a acting.
                  Ends-raise_if _ _ _ (λ _. same)
                    λ is_own. Ends-gets _ _ (
                      Ends-gets _ _ (
                        Ends-or_raise _ _ _ (λ _. same)
                          λ t there.
                            Ends-raise_if _ _ _ (λ _. same)
                              λ apart. Ends-modify _ _ (
                                Ends-modify _ _ (
                                  Ends-commit _ (
                                    Ends-gets _ _ (
                                      Ends-query_last _ (
                                        moved g a t e acting (ground arith)
                                          (target_key c (find_user login db) t db there)
                                          apart))))))))))
