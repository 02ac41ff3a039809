-- ===== src/Users/Search/Pattern.antt =====
-- The pattern of a search matches the names that contain the query.
use secure_messenger.Model.{Db}
use secure_messenger.Model.Accounts.{User}
use secure_messenger.Prelude.{
  ltb, ◌==◌, if◌then◌else◌, ==_iff, Bool-cases, length, take, filter, Text, text_eq, underscore, ℕ,
  ◌≡◌, refl, ap, ◌∙◌, inl, inr, Bool, true, false, ◌&&◌, ◌||◌, Option, none, some, List, [], ◌∷◌,
  ◌++◌, arith,
}
use secure_messenger.Users.Search.{
  percent, backslash, replace_char, escape_query, pattern_of, is_listed, order_by, name_matches,
  matching_users, normalized_query, search_users,
}

-- Some suffix of the text, the whole and the empty one included, passes the test.
abbrev pub any_suffix : (Text → Bool) → Text → Bool
any_suffix p [] = p []
any_suffix p (c ∷ t) = p (c ∷ t) || any_suffix p t

-- The first character, up to case, and a test of the rest.
abbrev pub first_matches : (ℕ → ℕ) → ℕ → (Text → Bool) → Text → Bool
first_matches fold c p [] = false
first_matches fold c p (d ∷ t) = fold d == fold c && p t

-- What the PostgreSQL manual says of ILIKE with \ as the escape character: % stands for any text,
-- a character after \ and any other character but _ for itself, in either case.
pub record LikeLaws (ilike : Text → Text → Bool) (fold : ℕ → ℕ) : Type 0 where
  pub end : (t : Text) → ilike [] t ≡ text_eq t []
  pub wildcard : (p t : Text) → ilike (percent ∷ p) t ≡ any_suffix (ilike p) t
  pub escaped :
      (c : ℕ) (p t : Text) → ilike (backslash ∷ c ∷ p) t ≡ first_matches fold c (ilike p) t
  pub literal :
      (c : ℕ) (p t : Text)
      → (c == percent || c == backslash || c == underscore) ≡ false
      → ilike (c ∷ p) t ≡ first_matches fold c (ilike p) t

-- `query` stands at the start of a text, or anywhere in it, up to case.
abbrev pub starts_folded : (ℕ → ℕ) → Text → Text → Bool
starts_folded fold [] t = true
starts_folded fold (c ∷ q) t = first_matches fold c (starts_folded fold q) t

abbrev pub contains_folded : (ℕ → ℕ) → Text → Text → Bool
contains_folded fold query t = any_suffix (starts_folded fold query) t

-- One character of the query in the pattern.
abbrev escape_char : ℕ → Text
escape_char c =
    if c == percent || c == backslash || c == underscore then backslash ∷ c ∷ [] else c ∷ []

escape_all : Text → Text
escape_all [] = []
escape_all (c ∷ q) = escape_char c ++ escape_all q

escape_query-cons : (c : ℕ) (q : Text) → escape_query (c ∷ q) ≡ escape_char c ++ escape_query q
unfolding escape_query replace_char
escape_query-cons c q = elim (Bool-cases (c == backslash)) [
  | inl e ↦ rw ((==_iff c backslash).0 e) refl
  | inr not_backslash ↦ elim (Bool-cases (c == percent)) [
    | inl e ↦ rw ((==_iff c percent).0 e) refl
    | inr not_percent ↦ elim (Bool-cases (c == underscore)) [
      | inl e ↦ rw ((==_iff c underscore).0 e) refl
      | inr plain ↦ rw not_backslash (rw not_percent (rw plain refl))
    ]
  ]
]

append_assoc : (a b c : Text) → a ++ b ++ c ≡ a ++ (b ++ c)
append_assoc [] b c = refl
append_assoc (x ∷ a) b c = ap (λ t. x ∷ t) (append_assoc a b c)

name_matches-cong :
    (p r : Text → Bool) (u : User) → ((t : Text) → p t ≡ r t) → name_matches p u ≡ name_matches r u
unfolding name_matches
name_matches-cong p r u h =
    ap (λ b. b || display p) (h u.username) ∙ ap (λ b. r u.username || b) (same u.display_name)
  where
    display : (Text → Bool) → Bool
    display m = elim u.display_name [ none ↦ false | some name ↦ m name ]

    same :
        (o : Option Text)
        → (elim o [ none ↦ false | some name ↦ p name ])
          ≡ (elim o [ none ↦ false | some name ↦ r name ])
    same none = refl
    same (some name) = h name

filter-cong :
    (p r : User → Bool) (us : List User) → ((u : User) → p u ≡ r u) → filter p us ≡ filter r us
filter-cong p r [] h = refl
filter-cong p r (u ∷ us) h = ground (arith, h u, filter-cong p r us h)

module _ (ilike : Text → Text → Bool) (fold : ℕ → ℕ) (laws : LikeLaws ilike fold) where
  like_char : (c : ℕ) (p t : Text) → ilike (escape_char c ++ p) t ≡ first_matches fold c (ilike p) t
  like_char c p t = elim (Bool-cases (c == percent || c == backslash || c == underscore)) [
    | inl special ↦ rw special (laws.escaped c p t)
    | inr plain ↦ rw plain (laws.literal c p t plain)
  ]

  any_suffix-end : (t : Text) → any_suffix (ilike []) t ≡ true
  unfolding text_eq
  any_suffix-end [] = laws.end []
  any_suffix-end (c ∷ t) = ground (arith, any_suffix-end t)

  first_matches-cong :
      (c : ℕ) (p r : Text → Bool) (t : Text)
      → ((u : Text) → p u ≡ r u)
      → first_matches fold c p t ≡ first_matches fold c r t
  first_matches-cong c p r [] h = refl
  first_matches-cong c p r (d ∷ t) h = ap (λ b. fold d == fold c && b) (h t)

  any_suffix-cong :
      (p r : Text → Bool) (t : Text) → ((u : Text) → p u ≡ r u) → any_suffix p t ≡ any_suffix r t
  any_suffix-cong p r [] h = h []
  any_suffix-cong p r (c ∷ t) h =
      rw (h (c ∷ t)) (ap (λ b. r (c ∷ t) || b) (any_suffix-cong p r t h))

  like_prefix : (q t : Text) → ilike (escape_query q ++ percent ∷ []) t ≡ starts_folded fold q t
  like_prefix [] t = unfold escape_query replace_char in laws.wildcard [] t ∙ any_suffix-end t
  like_prefix (c ∷ q) t = rw (escape_query-cons c q) (
      rw (append_assoc (escape_char c) (escape_query q) (percent ∷ [])) (
        like_char c (escape_query q ++ percent ∷ []) t
        ∙ first_matches-cong c (ilike (escape_query q ++ percent ∷ [])) (starts_folded fold q) t
            (λ u. like_prefix q u)))

  -- The pattern matches the texts that contain the query, up to case.
  like_pattern : (q t : Text) → ilike (pattern_of q) t ≡ contains_folded fold q t
  unfolding pattern_of
  like_pattern q t =
      laws.wildcard (escape_query q ++ percent ∷ []) t
      ∙ any_suffix-cong (ilike (escape_query q ++ percent ∷ [])) (starts_folded fold q) t
          (λ u. like_prefix q u)

  -- A search of at least two characters shows the users that a listing may show and whose username
  -- or display name contains the query, up to case and literally: its %, _ and \ are no wildcards;
  -- at most 20, in order. A shorter one shows nobody.
  pub search_users-contains :
      (lower : Text → Text) (before : User → User → Bool) (q : Text) (current : User) (db : Db)
      → search_users ilike lower before q current db ≡ (
          if ltb (length (normalized_query lower q)) 2
          then []
          else matching_users
              (contains_folded fold (normalized_query lower q))
              before
              current.id
              db)
  unfolding search_users matching_users
  search_users-contains lower before q current db =
      let query = normalized_query lower q in
      ap (λ us. if ltb (length query) 2 then [] else take 20 (order_by before us))
        (filter-cong _ _ db.users (λ u.
          ap (λ b. is_listed current.id db u && b)
            (name_matches-cong (ilike (pattern_of query)) (contains_folded fold query) u
              (λ t. like_pattern query t))))
