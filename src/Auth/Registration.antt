-- ===== src/Auth/Registration.antt =====
-- app/routers/auth.py `register`, with its search for a free username, and app/auth.py
-- `register_user`.
pub mod Search
pub mod Accounts
use mathlib.Core.List.{reverse}
use secure_messenger.Prelude.{
  ltb, leb, ◌==◌, if◌then◌else◌, is_some, length, take, any, Text, codes, text_eq, decimal,
  underscore, ℕ, zero, suc, ◌+◌, ◌-◌, Bool, true, false, ◌&&◌, ◌||◌, Option, none, some, List, [],
  ◌∷◌, ◌++◌,
}
use secure_messenger.Model.{Db}
use secure_messenger.Model.Accounts.{User}
use secure_messenger.Http.{
  status, crash, Result, ok, err, Action, gets, query, branch, raise_if, modify, commit, rollback,
  interleave, ◌>>=◌, ◌>>◌,
}
use secure_messenger.Queries.{find_user}
use secure_messenger.Auth.Passwords.{valid, invalid, validate_credentials, Hasher}

-- `[a-z0-9_]`
abbrev pub is_slug : ℕ → Bool
is_slug c = (leb 97 c && leb c 122) || (leb 48 c && leb c 57) || c == underscore

-- What `.lower()` and then `re.sub(r"[^a-z0-9_]", "_", …)` make of one character. Beside A to Z, the
-- only characters with a lower case in ASCII are U+212A (k) and U+0130 (i and a combining dot).
unfoldable pub slug_codes : ℕ → Text
slug_codes c =
    if is_slug c
    then c ∷ []
    else if leb 65 c && leb c 90
    then (c + 32) ∷ []
    else if c == 8490
    then 107 ∷ []
    else if c == 304
    then 105 ∷ underscore ∷ []
    else underscore ∷ []

unfoldable pub slug : Text → Text
unfolding slug_codes
slug [] = []
slug (c ∷ s) = slug_codes c ++ slug s

-- `.lstrip("_")`
unfoldable pub lstrip_underscores : Text → Text
lstrip_underscores [] = []
lstrip_underscores (c ∷ s) =
    let rest = lstrip_underscores s in if c == underscore then rest else c ∷ s

-- `.strip("_")`
unfoldable pub strip_underscores : Text → Text
unfolding lstrip_underscores
strip_underscores s = reverse (lstrip_underscores (reverse (lstrip_underscores s)))

abbrev pub max_username : ℕ
max_username = 32

-- `base` of `_available_username`
unfoldable pub base_username : Text → Text
unfolding slug strip_underscores
base_username login =
    let base = strip_underscores (slug login) in
    take max_username (if ltb (length base) 3 then codes "user_" ++ base else base)

-- `base[: 32 - n]`, where a negative bound counts from the end.
unfoldable pub shortened : Text → ℕ → Text
shortened base n =
    if leb n max_username
    then take (max_username - n) base
    else take (length base - (n - max_username)) base

-- f"{base[: 32 - len(ending)]}{ending}" with the ending f"_{suffix}"
unfoldable pub candidate_at : Text → ℕ → Text
unfolding shortened
candidate_at base suffix =
    shortened base (suc (length (decimal suffix))) ++ underscore ∷ decimal suffix

-- `login == …`, the test of the unique index.
abbrev pub has_login : Text → User → Bool
has_login login u = text_eq u.login login

abbrev pub has_username : Text → User → Bool
has_username name u = text_eq u.username name

-- select(User.id).where(User.username == candidate)
abbrev pub is_taken : List User → Text → Bool
is_taken us name = any (has_username name) us

-- The loop of `_available_username` on fuel, where the table does not change during the search;
-- `none` means that the fuel ran out.
unfoldable pub next_free : ℕ → List User → Text → Text → ℕ → Option Text
unfolding candidate_at
next_free zero us base candidate suffix = none
next_free (suc f) us base candidate suffix =
    let rest = next_free f us base (candidate_at base suffix) (suc suffix) in
    if is_taken us candidate then rest else some candidate

unfoldable pub available_username : Text → Db → Option Text
unfolding base_username next_free
available_username login db =
    next_free (suc (suc (length db.users))) db.users (base_username login) (base_username login) 1

-- The `login` and the `hash` of the account, with HTTPException(400) for an AuthError.
unfoldable pub register_user : Hasher → Text → Text → Result (Text × Text)
unfolding validate_credentials
register_user h login password = elim (validate_credentials login password) [
  | valid normalized ↦ ok (normalized, h.hash password)
  | invalid e ↦ err (status 400)
]

unfoldable pub new_user : ℕ → Text → Text → Text → ℕ → User
new_user id login username hash now = record {
  id = id;
  login = login;
  username = username;
  display_name = none;
  bio = none;
  avatar_url = none;
  password_hash = hash;
  password_salt = [];
  is_active = true;
  is_placeholder = false;
  created_at = now;
}

unfoldable pub insert_user : Text → Text → Text → ℕ → Db → Db
unfolding new_user
insert_user login username hash now db = record db {
  users = db.users ++ new_user db.next_user_id login username hash now ∷ [];
  next_user_id = suc db.next_user_id;
}

-- The unique indexes on logins and usernames.
unfoldable pub has_conflict : Text → Text → Db → Bool
has_conflict login username db = any (has_login login) db.users || is_taken db.users username

-- The end of `register`; other sessions may commit before it does.
unfoldable pub add_user : (Db → Db) → Text → Text → Text → ℕ → Action Unit
unfolding has_conflict insert_user
add_user others login username hash now = do
  interleave others
  conflict ← gets (has_conflict login username)
  branch conflict rollback (modify (insert_user login username hash now) >> commit)
  raise_if conflict 409

unfoldable pub register : Hasher → (Db → Db) → Text → Text → ℕ → Action Unit
unfolding register_user available_username add_user
register h others login password now = do
  existing ← gets (find_user login)
  raise_if (is_some existing) 409
  account ← query (λ _. register_user h login password)
  free ← gets (available_username account.0)
  username ← query (λ _. elim free [ none ↦ err crash | some name ↦ ok name ])
  add_user others account.0 username account.1 now
