-- ===== src/Chats/Effects/Creation.antt =====
-- The same for the requests that create a chat, an invitation or a membership by invitation, and
-- for the settings of a group.
use secure_messenger.Prelude.{◌==◌, is_some, Text, ℕ, ◌≡◌, refl, false, Option, none, some, arith}
use secure_messenger.Model.{Db}
use secure_messenger.Model.Accounts.{User}
use secure_messenger.Model.Chats.{Chat, member, ChatMember, ChatInvitation}
use secure_messenger.Http.{
  Result, ok, err, Session, gets, query, branch, modify, commit, rollback, ◌>>=◌, ◌>>◌, handle,
}
use secure_messenger.Http.Ends.{
  Ends, Ends-gets, Ends-query, Ends-or_raise, After, Ends-bind, Ends-raise_if, Ends-modify,
  Ends-interleave, Ends-commit, Ends-commit_last, Ends-rollback_last, Ends-modify_last,
  Ends-pure_last, Ends-query_last, Ends-branch, handle_by, Ends-weaken,
}
use secure_messenger.Queries.{get_member, get_chat, get_group}
use secure_messenger.Serializers.{serialize_chat, serialize_chat_summary, serialize_found}
use secure_messenger.Chats.Direct.{
  direct_key_of, find_direct, new_member, insert_direct, add_direct, direct_or_new,
  create_direct_chat,
}
use secure_messenger.Chats.Groups.{
  GroupCreateRequest, requested_logins, users_with_logins, insert_group, create_group,
  insert_member,
}
use secure_messenger.Chats.Invitations.{
  get_invitation, insert_invitation, invite_or_reuse, invite_group_member, set_accepted, join_group,
  accept_group_invitation,
}
use secure_messenger.Chats.Effects.Actor.{actor_ends}

module _ (P : Db → Type 0) (db : Db) (same : P db) where
  pub direct_cases :
      (others : Db → Db) (login : Text) (current : User) (now : ℕ)
      → P (others db)
      → ((u : User)
          → (u.id == current.id) ≡ false
          → find_direct (direct_key_of current.id u.id) (others db) ≡ none
          → P (insert_direct (direct_key_of current.id u.id) current.id u.id now (others db)))
      → P (handle (create_direct_chat others login current now) db).1
  unfolding create_direct_chat
  direct_cases others login current now interleaved inserted =
      handle_by (λ r t. P t) _ _
        (Ends-gets _ _ (
          Ends-or_raise _ _ _ (λ _. same)
            λ u _.
              Ends-raise_if _ _ _ (λ _. same)
                λ apart.
                  Ends-gets _ _
                    (Ends-raise_if _ _ _ (λ _. same) λ _. Ends-gets _ _ (open_chat u apart _))))
    where
      fresh_chat :
          (u : User) (apart : (u.id == current.id) ≡ false) (o : Option Chat)
          → find_direct (direct_key_of current.id u.id) (others db) ≡ o
          → Ends
              (branch (is_some o) rollback (
                modify (insert_direct (direct_key_of current.id u.id) current.id u.id now)
                >> commit))
              (record { committed = others db; working = others db })
              (λ r t. P t.committed)
      fresh_chat u apart none e =
          Ends-branch _ _ _ (λ h. absurd (ground arith))
            (λ _. Ends-modify _ _ (Ends-commit_last (inserted u apart e)))
      fresh_chat u apart (some c) e =
          Ends-branch _ _ _ (λ _. Ends-rollback_last interleaved) (λ h. absurd (ground arith))

      answer :
          (u : User) (r : Result Unit) (t : Session)
          → P t.committed
          → After
              (λ _. gets (find_direct (direct_key_of current.id u.id)) >>= λ x.
                query (serialize_found (serialize_chat_summary current.id) x))
              (λ r t. P t.committed)
              r
              t
      answer u (err e) t h = h
      answer u (ok a) t h = Ends-gets _ _ (Ends-query_last _ h)

      open_chat :
          (u : User) (apart : (u.id == current.id) ≡ false) (o : Option Chat)
          → Ends
              (direct_or_new others (direct_key_of current.id u.id) current.id u.id now o)
              (record { committed = db; working = db })
              (λ r t. P t.committed)
      open_chat u apart (some c) = unfold direct_or_new in Ends-query_last _ same
      open_chat u apart none =
          unfold direct_or_new add_direct in
          Ends-interleave _ _
            (Ends-bind _ _ (Ends-gets _ _ (Ends-weaken (fresh_chat u apart _ refl) (answer u))))

  pub group_cases :
      (request : GroupCreateRequest) (current : User) (now : ℕ)
      → ((avatar : Option Text)
          → P (
              insert_group request avatar current.id
                (users_with_logins (requested_logins current.login request.member_logins) db)
                now
                db))
      → P (handle (create_group request current now) db).1
  unfolding create_group
  group_cases request current now inserted =
      handle_by (λ r t. P t) _ _
        (Ends-gets _ _ (
          Ends-raise_if _ _ _ (λ _. same)
            λ _.
              Ends-query _ _ (λ _ _. same)
                λ avatar _. Ends-gets _ _ (
                  Ends-modify _ _
                    (Ends-commit _ (Ends-gets _ _ (Ends-query_last _ (inserted avatar)))))))

  pub invite_cases :
      (fresh c : ℕ) (login : Text) (current : User) (now : ℕ)
      → ((i : ChatInvitation) (g : Chat)
          → i.chat_id ≡ c
          → get_group c db ≡ some g
          → P (insert_invitation i db))
      → P (handle (invite_group_member fresh c login current now) db).1
  unfolding invite_group_member
  invite_cases fresh c login current now inserted =
      handle_by (λ r t. P t) _ _
        (actor_ends _ c current.id (λ _. same)
          λ g a e _ _. Ends-gets _ _ (
            Ends-or_raise _ _ _ (λ _. same)
              λ u _.
                Ends-gets _ _
                  (Ends-raise_if _ _ _ (λ _. same) λ _. Ends-gets _ _ (invite g u.id e _))))
    where
      invite :
          (g : Chat) (u : ℕ) (e : get_group c db ≡ some g) (o : Option ChatInvitation)
          → Ends
              (invite_or_reuse fresh c current.id u now o)
              (record { committed = db; working = db })
              (λ r t. P t.committed)
      invite g u e (some old) = unfold invite_or_reuse in Ends-query_last _ same
      invite g u e none =
          unfold invite_or_reuse in
          Ends-modify _ _ (Ends-commit _ (Ends-query_last _ (inserted _ g refl e)))

  pub accept_cases :
      (id : ℕ) (current : User) (now : ℕ)
      → ((i : ChatInvitation)
          → get_invitation id db ≡ some i
          → get_member i.chat_id current.id db ≡ none
          → P (set_accepted id (insert_member (new_member i.chat_id current.id member now) db)))
      → P (set_accepted id db)
      → P (handle (accept_group_invitation id current now) db).1
  unfolding accept_group_invitation
  accept_cases id current now joined kept =
      handle_by (λ r t. P t) _ _
        (Ends-gets _ _ (
          Ends-or_raise _ _ _ (λ _. same)
            λ i found.
              Ends-raise_if _ _ _ (λ _. same)
                λ _.
                  Ends-raise_if _ _ _ (λ _. same)
                    λ _.
                      Ends-raise_if _ _ _ (λ _. same)
                        λ _. Ends-gets _ _ (Ends-bind _ _ (join i found _ refl))))
    where
      join :
          (i : ChatInvitation) (found : get_invitation id db ≡ some i) (o : Option ChatMember)
          → get_member i.chat_id current.id db ≡ o
          → Ends
              (join_group i.chat_id current.id now o)
              (record { committed = db; working = db })
              (After
                (λ _.
                  modify (set_accepted id)
                  >> (commit
                      >> (gets (get_chat i.chat_id) >>= λ x.
                          query (serialize_found serialize_chat x))))
                (λ r t. P t.committed))
      join i found none e =
          unfold join_group in
          Ends-branch _ _ _
            (λ _. Ends-modify_last _ (
              Ends-modify _ _
                (Ends-commit _ (Ends-gets _ _ (Ends-query_last _ (joined i found e))))))
            (λ h. absurd (ground arith))
      join i found (some m) e =
          unfold join_group in
          Ends-branch _ _ _ (λ h. absurd (ground arith))
            (λ _.
              Ends-pure_last _
                (Ends-modify _ _ (Ends-commit _ (Ends-gets _ _ (Ends-query_last _ kept)))))
