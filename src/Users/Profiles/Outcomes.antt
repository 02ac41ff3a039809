-- ===== src/Users/Profiles/Outcomes.antt =====
-- What PATCH /users/me leaves, on every path.
use secure_messenger.Prelude.{
  ◌==◌, is_some, find, any, update_where, Text, strip, ℕ, ◌≡◌, refl, sym, ◌∙◌, Bool, true, false,
  ◌&&◌, not, none, some, List, [], ◌∷◌, arith,
}
use secure_messenger.Model.{Db}
use secure_messenger.Model.Accounts.{User}
use secure_messenger.Http.{status, crash, Result, ok, err, handle}
use secure_messenger.Http.Ends.{
  Ends, Ends-gets, Ends-raise_if, Ends-modify, Ends-interleave, Ends-commit_last, Ends-raise,
  handle_by, Ends-branch, Ends-bind, Ends-raise_if_end, Ends-rollback_last,
}
use secure_messenger.Users.Profiles.{
  FieldUpdate, unset, set_to, ProfileUpdateRequest, lower, set_display_name, set_bio, set_username,
  is_named, find_named, rename, finish_profile, update_profile,
}

-- The tables with the display name and the bio of the request.
abbrev pub edited : ProfileUpdateRequest → ℕ → Db → Db
edited request id db = set_bio id request.bio (set_display_name id request.display_name db)

-- Another user than `id` has the username.
abbrev pub is_taken : Text → ℕ → Db → Bool
is_taken name id db = any (λ u. is_named name u && not (u.id == id)) db.users

-- The ends of an update. Only the last two keep anything of the request, and they keep all of it.
pub data Updated (others : Db → Db) (request : ProfileUpdateRequest) (id : ℕ) (db : Db)
    : Result (Unit {0}) → Db → Type 0 where
  crashed : request.username ≡ set_to none → Updated others request id db (err crash) db
  taken :
      (t : Text)
      → request.username ≡ set_to (some t)
      → is_taken (lower (strip t)) id db ≡ true
      → Updated others request id db (err (status 409)) db
  overtaken :
      (t : Text)
      → request.username ≡ set_to (some t)
      → is_taken (lower (strip t)) id db ≡ false
      → is_taken (lower (strip t)) id (others (edited request id db)) ≡ true
      → Updated others request id db (err (status 409)) (others db)
  kept :
      request.username ≡ unset
      → Updated others request id db (ok tt) (others (edited request id db))
  renamed :
      (t : Text)
      → request.username ≡ set_to (some t)
      → is_taken (lower (strip t)) id db ≡ false
      → is_taken (lower (strip t)) id (others (edited request id db)) ≡ false
      → Updated others request id db
          (ok tt)
          (set_username id (lower (strip t)) (others (edited request id db)))

any-find : (p : User → Bool) (us : List User) → is_some (find p us) ≡ any p us
any-find p [] = refl
any-find p (u ∷ us) = ground (arith, any-find p us)

found-taken :
    (name : Text) (id : ℕ) (db : Db) → is_some (find_named name id db) ≡ is_taken name id db
unfolding find_named
found-taken name id db = any-find _ db.users

any-update :
    (name : Text) (id : ℕ) (f : User → User) (us : List User)
    → ((u : User) → (f u).id ≡ u.id)
    → ((u : User) → (f u).username ≡ u.username)
    → any (λ u. is_named name u && not (u.id == id)) (update_where (λ u. u.id == id) f us)
      ≡ any (λ u. is_named name u && not (u.id == id)) us
any-update name id f [] h k = refl
any-update name id f (u ∷ us) h k = ground (arith, h u, k u, any-update name id f us h k)

taken-display_name :
    (name : Text) (id : ℕ) (x : FieldUpdate) (db : Db)
    → is_taken name id (set_display_name id x db) ≡ is_taken name id db
unfolding set_display_name
taken-display_name name id unset db = refl
taken-display_name name id (set_to value) db = any-update name id _ db.users (λ u. refl) (λ u. refl)

taken-bio :
    (name : Text) (id : ℕ) (x : FieldUpdate) (db : Db)
    → is_taken name id (set_bio id x db) ≡ is_taken name id db
unfolding set_bio
taken-bio name id unset db = refl
taken-bio name id (set_to value) db = any-update name id _ db.users (λ u. refl) (λ u. refl)

-- The display name and the bio change nobody's username.
taken-edited :
    (name : Text) (request : ProfileUpdateRequest) (id : ℕ) (db : Db)
    → is_some (find_named name id (edited request id db)) ≡ is_taken name id db
taken-edited name request id db =
    found-taken name id (edited request id db)
    ∙ taken-bio name id request.bio (set_display_name id request.display_name db)
    ∙ taken-display_name name id request.display_name db

module _ (others : Db → Db) (request : ProfileUpdateRequest) (id : ℕ) (db : Db) where
  finish_profile-Updated :
      (x : FieldUpdate)
      → request.username ≡ x
      → Ends
          (finish_profile others id x)
          (record { committed = db; working = edited request id db })
          (λ r t. Updated others request id db r t.committed)
  unfolding finish_profile rename
  finish_profile-Updated unset e = Ends-interleave _ _ (Ends-commit_last (kept e))
  finish_profile-Updated (set_to none) e = Ends-raise _ (crashed e)
  finish_profile-Updated (set_to (some t)) e =
      let name = lower (strip t) in
      let later = others (edited request id db) in
      Ends-gets _ _ (
        Ends-raise_if _ _ _ (λ h. taken t e (sym (taken-edited name request id db) ∙ h))
          λ free. Ends-interleave _ _ (
            Ends-gets _ _ (
              Ends-bind _ _ (
                Ends-branch _ _ _
                  (λ h. Ends-rollback_last (
                    Ends-raise_if_end _ _
                      (λ _. overtaken t e (first free) (sym (found-taken name id later) ∙ h))
                      (λ k. absurd (cc (h, k)))))
                  λ h. Ends-modify _ _ (
                    Ends-commit_last (
                      Ends-raise_if_end _ _ (λ k. absurd (cc (h, k)))
                        (λ _. renamed t e (first free) (sym (found-taken name id later) ∙ h))))))))
    where
      first :
          is_some (find_named (lower (strip t)) id (edited request id db)) ≡ false
          → is_taken (lower (strip t)) id db ≡ false
      first h = sym (taken-edited (lower (strip t)) request id db) ∙ h

-- PATCH /users/me, whatever other sessions commit before its own commit: a username that is null ends
-- in an exception, and one that another user has at first or then in 409, with nothing of the request
-- in the tables; any other request succeeds and leaves all of it.
pub update_profile-Updated :
    (others : Db → Db) (request : ProfileUpdateRequest) (current : User) (db : Db)
    → let (r, after) = handle (update_profile others request current) db in
      Updated others request current.id db r after
unfolding update_profile
update_profile-Updated others request current db =
    handle_by (Updated others request current.id db) _ db (
      Ends-modify _ _ (
        Ends-modify _ _
          (finish_profile-Updated others request current.id db request.username refl)))
