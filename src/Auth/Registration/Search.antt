-- ===== src/Auth/Registration/Search.antt =====
-- The search for a free username ends.
use secure_messenger.Prelude.{
  if◌then◌else◌, Bool-cases, length, any, all, delete_where, Text, text_eq, eq_of_text_eq,
  numbered-inj, ℕ, zero, suc, ◌≤◌, ◌<◌, ◌≡◌, refl, ◌⊎◌, inl, inr, Bool, true, false, Option, none,
  some, List, [], ◌∷◌, arith,
}
use secure_messenger.Model.Accounts.{User}
use secure_messenger.Auth.Registration.{
  base_username, candidate_at, has_username, is_taken, next_free, available_username,
}
use secure_messenger.Model.{Db}

candidate-inj : (base : Text) (m n : ℕ) → candidate_at base m ≡ candidate_at base n → m ≡ n
unfolding candidate_at
candidate-inj base m n e = numbered-inj _ _ m n e

-- The `n` candidates from `s` on are all taken.
abbrev AllTaken : Text → ℕ → ℕ → List User → Type 0
AllTaken base zero s us = Unit
AllTaken base (suc n) s us = (is_taken us (candidate_at base s) ≡ true) × AllTaken base n (suc s) us

taken-delete :
    (name other : Text) (us : List User)
    → (name ≡ other → ⊥)
    → is_taken us name ≡ true
    → is_taken (delete_where (has_username other) us) name ≡ true
taken-delete name other [] apart h = absurd (ground (arith, h))
taken-delete name other (u ∷ us) apart h = ground (
  arith,
  h,
  taken-delete name other us apart,
  λ (p : text_eq u.username name ≡ true). eq_of_text_eq u.username name p,
  λ (p : text_eq u.username other ≡ true). eq_of_text_eq u.username other p,
)

-- Without the users of an earlier candidate, later candidates are still taken.
AllTaken-delete :
    (base : Text) (n s k : ℕ) (us : List User)
    → k < s
    → AllTaken base n s us
    → AllTaken base n s (delete_where (has_username (candidate_at base k)) us)
AllTaken-delete base zero s k us h t = tt
AllTaken-delete base (suc n) s k us h t = (
  taken-delete (candidate_at base s) (candidate_at base k) us
      (λ e. omega (arith, h, candidate-inj base s k e)) t.0,
  AllTaken-delete base n (suc s) k us (omega (arith, h)) t.1,
)

length-delete-le : (p : User → Bool) (us : List User) → length (delete_where p us) ≤ length us
length-delete-le p [] = omega arith
length-delete-le p (u ∷ us) = ground (arith, length-delete-le p us)

length-delete-lt :
    (p : User → Bool) (us : List User) → any p us ≡ true → length (delete_where p us) < length us
length-delete-lt p [] h = absurd (ground (arith, h))
length-delete-lt p (u ∷ us) h = ground (arith, h, length-delete-le p us, length-delete-lt p us)

-- Distinct candidates need distinct users.
taken-le-users : (base : Text) (n s : ℕ) (us : List User) → AllTaken base n s us → n ≤ length us
taken-le-users base zero s us t = omega arith
taken-le-users base (suc n) s us t =
    let left = delete_where (has_username (candidate_at base s)) us in
    omega (
      arith,
      taken-le-users base n (suc s) left (AllTaken-delete base n (suc s) s us (omega arith) t.1),
      length-delete-lt (has_username (candidate_at base s)) us t.0,
    )

-- A name that no user has.
abbrev pub FindsFree : List User → Option Text → Type 0
FindsFree us o = (name : Text) × (o ≡ some name) × (is_taken us name ≡ false)

-- One round of the loop, with what the rest of the search gives.
round-FindsFree :
    (n : ℕ) (us : List User) (base candidate : Text) (s : ℕ) (rest : Option Text)
    → (is_taken us candidate ≡ true → FindsFree us rest ⊎ AllTaken base n s us)
    → FindsFree us (if is_taken us candidate then rest else some candidate)
      ⊎ ((is_taken us candidate ≡ true) × AllTaken base n s us)
round-FindsFree n us base candidate s rest go_on = elim (Bool-cases (is_taken us candidate)) [
  | inr free ↦ inl (candidate, rw free refl, free)
  | inl taken ↦ elim (go_on taken) [
    | inl (name, e, free) ↦ inl (name, rw taken e, free)
    | inr all ↦ inr (taken, all)
  ]
]

-- The search finds a free name, or it ran out of fuel because all candidates were taken.
next_free-FindsFree :
    (f : ℕ) (us : List User) (base candidate : Text) (s : ℕ)
    → FindsFree us (next_free (suc f) us base candidate s)
      ⊎ ((is_taken us candidate ≡ true) × AllTaken base f s us)
unfolding next_free
next_free-FindsFree zero us base candidate s =
    round-FindsFree zero us base candidate s none λ _. inr tt
next_free-FindsFree (suc f) us base candidate s =
    round-FindsFree (suc f) us base candidate s
      (next_free (suc f) us base (candidate_at base s) (suc s))
      λ _. next_free-FindsFree f us base (candidate_at base s) (suc s)

-- `_available_username` always ends: after at most two more candidates than there are users it finds a username that no user has.
pub available_username-FindsFree :
    (login : Text) (db : Db) → FindsFree db.users (available_username login db)
unfolding available_username
available_username-FindsFree login db =
    let base = base_username login in
    elim (next_free-FindsFree (suc (length db.users)) db.users base base 1) [
      | inl found ↦ found
      | inr (taken, all) ↦
          absurd (omega (arith, taken-le-users base (suc (length db.users)) 1 db.users all))
    ]
