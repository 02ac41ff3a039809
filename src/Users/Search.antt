-- ===== src/Users/Search.antt =====
-- app/routers/users.py: `search_users` with its pattern for ILIKE, `list_users` and
-- `list_blocked_users`. ILIKE and the order of texts are PostgreSQL's, `lower` is `str.lower`: they
-- are parameters.
pub mod Pattern
use secure_messenger.Prelude.{
  ltb, ◌==◌, if◌then◌else◌, length, take, filter, any, order_by, Text, strip, underscore, ℕ, Bool,
  false, ◌&&◌, ◌||◌, not, none, some, List, [], ◌∷◌, ◌++◌,
}
use secure_messenger.Model.{Db}
use secure_messenger.Model.Accounts.{User}
use secure_messenger.Queries.{is_blocked}

-- The codes of %, \ and _.
abbrev pub percent : ℕ
percent = 37

abbrev pub backslash : ℕ
backslash = 92

-- `s.replace(old, new)` for an `old` of one character
unfoldable pub replace_char : ℕ → Text → Text → Text
replace_char old new [] = []
replace_char old new (c ∷ s) =
    let rest = replace_char old new s in if c == old then new ++ rest else c ∷ rest

-- The three calls of `replace`, the one for \ first.
unfoldable pub escape_query : Text → Text
unfolding replace_char
escape_query query = replace_char underscore (backslash ∷ underscore ∷ []) (
    replace_char percent (backslash ∷ percent ∷ [])
      (replace_char backslash (backslash ∷ backslash ∷ []) query))

-- `s.removeprefix("@")`
unfoldable pub remove_at : Text → Text
remove_at [] = []
remove_at (c ∷ s) = if c == 64 then s else c ∷ s

-- f"%{escaped_query}%"
unfoldable pub pattern_of : Text → Text
unfolding escape_query
pattern_of query = percent ∷ escape_query query ++ percent ∷ []

-- Whom a listing shows: not the user, no placeholder, and no one with a block in either direction.
unfoldable pub is_listed : ℕ → Db → User → Bool
is_listed user_id db u =
    not (u.id == user_id) && u.is_active && not u.is_placeholder && not (is_blocked user_id u.id db)

-- A null display name matches nothing.
unfoldable pub name_matches : (Text → Bool) → User → Bool
name_matches matches u =
    matches u.username || elim u.display_name [ none ↦ false | some name ↦ matches name ]

-- The rows that a search shows, by how it tests a name.
unfoldable pub matching_users : (Text → Bool) → (User → User → Bool) → ℕ → Db → List User
unfolding name_matches is_listed order_by
matching_users matches before user_id db =
    take 20
      (order_by before (filter (λ u. is_listed user_id db u && name_matches matches u) db.users))

unfoldable pub normalized_query : (Text → Text) → Text → Text
unfolding remove_at
normalized_query lower q = lower (remove_at (strip q))

unfoldable pub search_users :
    (Text → Text → Bool) → (Text → Text) → (User → User → Bool) → Text → User → Db → List User
unfolding normalized_query pattern_of matching_users
search_users ilike lower before q current db =
    let query = normalized_query lower q in
    if ltb (length query) 2
    then []
    else matching_users (ilike (pattern_of query)) before current.id db

unfoldable pub list_users : (User → User → Bool) → User → Db → List User
unfolding is_listed order_by
list_users before current db = order_by before (filter (is_listed current.id db) db.users)

-- The join has a row for a user with a block of the current user, whose key is unique.
unfoldable pub list_blocked_users : (User → User → Bool) → User → Db → List User
unfolding order_by
list_blocked_users before current db = order_by before (
    filter (λ u. any (λ b. b.blocker_id == current.id && b.blocked_id == u.id) db.user_blocks)
      db.users)
