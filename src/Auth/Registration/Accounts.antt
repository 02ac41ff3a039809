-- ===== src/Auth/Registration/Accounts.antt =====
-- What `register` leaves.
use secure_messenger.Prelude.{
  any, count, Text, ℕ, ◌≡◌, refl, ◌⊎◌, inl, inr, Bool, false, some, List, [], ◌∷◌, arith,
}
use secure_messenger.Model.{Db}
use secure_messenger.Http.Ends.{
  Ends, Ends-gets, Ends-query, Ends-bind, Ends-raise_if, Ends-modify, Ends-interleave,
  Ends-commit_last, Ends-rollback_last, Ends-raise_if_end, Ends-branch, handle_by, Ends-queried,
  Ends-got,
}
use secure_messenger.Auth.Registration.Search.{available_username-FindsFree}
use secure_messenger.Http.{Error, status, Result, ok, err, handle}
use secure_messenger.Auth.Passwords.{validate_credentials, Hasher}
use secure_messenger.Auth.Registration.{
  is_taken, register_user, insert_user, has_conflict, add_user, register,
}
use secure_messenger.Model.Accounts.{User}

-- The ends of a registration: refused without a change, overtaken by another session's commit, or
-- with a new account whose names nobody has.
pub data Registered (h : Hasher) (others : Db → Db) (login password : Text) (now : ℕ) (db : Db)
    : Result (Unit {0}) → Db → Type 0 where
  refused :
      (e : ℕ)
      → (e ≡ 400) ⊎ (e ≡ 409)
      → Registered h others login password now db (err (status e)) db
  overtaken : Registered h others login password now db (err (status 409)) (others db)
  created :
      (account : Text × Text) (username : Text)
      → register_user h login password ≡ ok account
      → is_taken db.users username ≡ false
      → has_conflict account.0 username (others db) ≡ false
      → Registered h others login password now db
          (ok tt)
          (insert_user account.0 username account.1 now (others db))

count-none : (p : User → Bool) (us : List User) → any p us ≡ false → count p us ≡ 0
count-none p [] h = refl
count-none p (u ∷ us) h = ground (arith, h, count-none p us)

register_user-refuses :
    (h : Hasher) (login password : Text) (e : Error)
    → register_user h login password ≡ err e
    → e ≡ status 400
unfolding register_user validate_credentials
register_user-refuses h login password e p = ground (arith, p)

add_user-Registered :
    (h : Hasher) (others : Db → Db) (login password : Text) (now : ℕ) (db : Db)
    (account : Text × Text) (username : Text)
    → register_user h login password ≡ ok account
    → is_taken db.users username ≡ false
    → Ends
        (add_user others account.0 username account.1 now)
        (record { committed = db; working = db })
        (λ r t. Registered h others login password now db r t.committed)
unfolding add_user
add_user-Registered h others login password now db account username p free = Ends-interleave _ _ (
    Ends-gets _ _ (
      Ends-bind _ _ (
        Ends-branch _ _ _
          (λ clash.
            Ends-rollback_last
              (Ends-raise_if_end _ _ (λ _. overtaken) λ new. absurd (cc (clash, new))))
          λ new. Ends-modify _ _ (
            Ends-commit_last (
              Ends-raise_if_end _ _ (λ clash. absurd (cc (clash, new)))
                λ _. created account username p free new)))))

-- POST /auth/register answers 400 or 409 and changes nothing, or 409 after another session's
-- commit, or makes one account whose login and username nobody has; it never fails otherwise.
pub register-Registered :
    (h : Hasher) (others : Db → Db) (login password : Text) (now : ℕ) (db : Db)
    → let (r, after) = handle (register h others login password now) db in
      Registered h others login password now db r after
unfolding register
register-Registered h others login password now db =
    handle_by (Registered h others login password now db) _ db (
      Ends-gets _ _ (
        Ends-raise_if _ _ _ (λ _. refused 409 (inr refl))
          λ _.
            Ends-query _ _
              (λ e p. rw (register_user-refuses h login password e p) (refused 400 (inl refl)))
              λ (account : Text × Text) p.
                let (username, found, free) = available_username-FindsFree account.0 db in
                Ends-got _ _ (some username) found (
                  Ends-queried _ _ username refl
                    (add_user-Registered h others login password now db account username p free))))
