-- ===== src/Chats/Effects/Settings.antt =====
-- What PATCH /chats/groups/{chat_id} can do to the tables.
use secure_messenger.Prelude.{Text, ℕ, ◌≡◌, refl, Option, none, some}
use secure_messenger.Model.{Db}
use secure_messenger.Model.Accounts.{User}
use secure_messenger.Model.Chats.{HistoryVisibility, Chat, Role}
use secure_messenger.Http.{Result, ok, err, Session, gets, query, commit, ◌>>=◌, ◌>>◌, handle}
use secure_messenger.Http.Ends.{
  Ends, Ends-gets, Ends-query, Ends-or_raise, After, Ends-bind, Ends-raise_if, Ends-modify,
  Ends-commit, Ends-modify_last, Ends-pure_last, Ends-query_last, Ends-branch, handle_by,
  Ends-weaken, Keeps,
}
use secure_messenger.Queries.{get_chat}
use secure_messenger.Serializers.{serialize_chat, serialize_found}
use secure_messenger.Chats.Invitations.{
  GroupUpdateRequest, change_chat, set_avatar, set_visibility, update_group, upload_group_avatar,
}
use secure_messenger.Chats.Effects.Actor.{actor_ends}

-- A change of a chat that keeps its id and its direct key.
abbrev pub IsCosmetic : (Chat → Chat) → Type 0
IsCosmetic f = (x : Chat) → ((f x).id ≡ x.id) × ((f x).direct_key ≡ x.direct_key)

module _ (P : Db → Type 0) (c : ℕ)
    (stable : (db : Db) (f : Chat → Chat) → IsCosmetic f → P db → P (change_chat c f db)) where
  avatar_ends :
      (s : Session) (value : Option (Option Text))
      → P s.committed
      → P s.working
      → Ends (set_avatar c value) s (Keeps P)
  unfolding set_avatar
  avatar_ends s none h w = Ends-pure_last _ (h, w)
  avatar_ends s (some value) h w =
      Ends-query _ _ (λ _ _. h)
        λ url _. Ends-modify_last _ (h, stable s.working _ (λ x. (refl, refl)) w)

  visibility_ends :
      (s : Session) (role : Role) (chat : Chat) (value : Option HistoryVisibility)
      → P s.committed
      → P s.working
      → Ends (set_visibility c role chat value) s (Keeps P)
  unfolding set_visibility
  visibility_ends s role chat none h w = Ends-pure_last _ (h, w)
  visibility_ends s role chat (some v) h w =
      Ends-raise_if _ _ _ (λ _. h)
        λ _.
          Ends-branch _ _ _ (λ _. Ends-modify_last _ (h, stable s.working _ (λ x. (refl, refl)) w))
            (λ _. Ends-pure_last _ (h, w))

  pub update_cases :
      (request : GroupUpdateRequest) (current : User) (db : Db)
      → P db
      → P (handle (update_group c request current) db).1
  unfolding update_group
  update_cases request current db same =
      handle_by (λ r t. P t) _ _
        (Ends-gets _ _ (
          Ends-or_raise _ _ _ (λ _. same)
            λ chat _. Ends-gets _ _ (
              Ends-or_raise _ _ _ (λ _. same)
                λ m _.
                  Ends-raise_if _ _ _ (λ _. same)
                    λ _. Ends-bind _ _ (
                      Ends-weaken (avatar_ends _ request.avatar_url same same)
                        (settings m.role chat)))))
    where
      finish :
          (r : Result Unit) (t : Session)
          → Keeps P r t
          → After
              (λ _. commit >> (gets (get_chat c) >>= λ x. query (serialize_found serialize_chat x)))
              (λ r t. P t.committed)
              r
              t
      finish (err e) t h = h
      finish (ok a) t h = Ends-commit _ (Ends-gets _ _ (Ends-query_last _ h.1))

      settings :
          (role : Role) (chat : Chat) (r : Result Unit) (t : Session)
          → Keeps P r t
          → After
              (λ _.
                set_visibility c role chat request.history_visibility
                >> (commit
                    >> (gets (get_chat c) >>= λ x. query (serialize_found serialize_chat x))))
              (λ r t. P t.committed)
              r
              t
      settings role chat (err e) t h = h
      settings role chat (ok a) t h =
          Ends-bind _ _
            (Ends-weaken (visibility_ends t role chat request.history_visibility h.0 h.1) finish)

  pub upload_cases :
      (saved : Result Text) (current : User) (db : Db)
      → P db
      → P (handle (upload_group_avatar c saved current) db).1
  unfolding upload_group_avatar
  upload_cases saved current db same =
      handle_by (λ r t. P t) _ _
        (actor_ends _ c current.id (λ _. same)
          λ g a _ _ _.
            Ends-query _ _ (λ _ _. same)
              λ url _. Ends-modify _ _ (
                Ends-commit _
                  (Ends-gets _ _ (Ends-query_last _ (stable db _ (λ x. (refl, refl)) same)))))
