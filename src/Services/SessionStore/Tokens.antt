-- ===== src/Services/SessionStore/Tokens.antt =====
-- What `resolve` says of a token after `issue` and `revoke`.
use secure_messenger.Prelude.{
  leb, ◌==◌, if◌then◌else◌, Bool-cases, find, any, update_where, delete_where, Text, ℕ, ◌+◌, ◌≡◌,
  refl, sym, ap, ◌∙◌, inl, inr, Bool, true, false, Option, none, some, List, [], ◌∷◌, ◌++◌, arith,
}
use secure_messenger.Services.SessionStore.{
  SessionData, TokenEntry, SessionStore, has_key, set_token, forget, resolve_entry, revoke_entry,
  issue, resolve, revoke,
}

module _ (key : ℕ) (e : TokenEntry) where
  find-update_absent :
      (es : List TokenEntry)
      → any (has_key e.key) es ≡ false
      → find (has_key key) (update_where (has_key e.key) (λ _. e) es) ≡ find (has_key key) es
  find-update_absent [] h = refl
  find-update_absent (x ∷ es) h = ground (arith, find-update_absent es)

  find-update_token :
      (es : List TokenEntry)
      → any (has_key e.key) es ≡ true
      → find (has_key key) (update_where (has_key e.key) (λ _. e) es)
        ≡ (if e.key == key then some e else find (has_key key) es)
  find-update_token [] h = absurd (ground arith)
  find-update_token (x ∷ es) h = elim (Bool-cases (any (has_key e.key) es)) [
    | inl there ↦ ground (arith, find-update_token es there)
    | inr absent ↦ ground (arith, find-update_absent es absent)
  ]

  find-append_token :
      (es : List TokenEntry)
      → any (has_key e.key) es ≡ false
      → find (has_key key) (es ++ e ∷ []) ≡ (if e.key == key then some e else find (has_key key) es)
  find-append_token [] h = ground arith
  find-append_token (x ∷ es) h = ground (arith, find-append_token es)

  pub find-set_token :
      (es : List TokenEntry)
      → find (has_key key) (set_token e es)
        ≡ (if e.key == key then some e else find (has_key key) es)
  unfolding set_token
  find-set_token es = elim (Bool-cases (any (has_key e.key) es)) [
    | inl there ↦ rw there (find-update_token es there)
    | inr absent ↦ rw absent (find-append_token es absent)
  ]

pub find-delete_other :
    (key other : ℕ) (es : List TokenEntry)
    → find (has_key other) (delete_where (has_key key) es)
      ≡ (if key == other then none else find (has_key other) es)
find-delete_other key other [] = ground arith
find-delete_other key other (e ∷ es) = ground (arith, find-delete_other key other es)

-- What `resolve` answers.
abbrev pub answer : ℕ → Option TokenEntry → Option SessionData
answer now none = none
answer now (some e) = if leb e.expires_at now then none else some e.session

answer-if :
    (now : ℕ) (b : Bool) (o p : Option TokenEntry)
    → answer now (if b then o else p) ≡ (if b then answer now o else answer now p)
answer-if now true o p = refl
answer-if now false o p = refl

if_else :
    (b : Bool) (x : Option SessionData) {y z : Option SessionData}
    → y ≡ z
    → (if b then x else y) ≡ (if b then x else z)
if_else b x p = ap (λ y. if b then x else y) p

pub resolve_answer :
    (key now : ℕ) (o : Option TokenEntry) (s : SessionStore)
    → (resolve_entry key now o s).0 ≡ answer now o
unfolding resolve_entry
resolve_answer key now none s = refl
resolve_answer key now (some e) s = ground arith

-- A token that was issued resolves to the user and the device it was issued for until
-- `ttl_seconds` have passed, and to nothing from then on; every token with another key resolves as
-- if nothing had been issued.
resolve-issue :
    (sha256 : Text → ℕ) (token other : Text) (u d now later : ℕ) (s : SessionStore)
    → (resolve sha256 other later (issue sha256 token u d now s)).0 ≡ (
        if sha256 token == sha256 other
        then (if leb (now + s.ttl_seconds) later
            then none
            else some (record { user_id = u; device_id = d }))
        else (resolve sha256 other later s).0)
unfolding resolve issue
resolve-issue sha256 token other u d now later s =
    let same = sha256 token == sha256 other in
    resolve_answer (sha256 other) later _ (issue sha256 token u d now s)
    ∙ ap (answer later) (find-set_token (sha256 other) _ s.tokens)
    ∙ answer-if later same _ _
    ∙ if_else same _
        (sym (resolve_answer (sha256 other) later (find (has_key (sha256 other)) s.tokens) s))

pub find-revoke_entry :
    (key other : ℕ) (o : Option TokenEntry) (s : SessionStore)
    → find (has_key key) s.tokens ≡ o
    → find (has_key other) (revoke_entry key o s).tokens
      ≡ (if key == other then none else find (has_key other) s.tokens)
unfolding revoke_entry forget
find-revoke_entry key other none s h = ground (arith, h)
find-revoke_entry key other (some e) s h = find-delete_other key other s.tokens

-- A revoked token resolves to nothing; every token with another key resolves as before.
resolve-revoke :
    (sha256 : Text → ℕ) (token other : Text) (later : ℕ) (s : SessionStore)
    → (resolve sha256 other later (revoke sha256 token s)).0
      ≡ (if sha256 token == sha256 other then none else (resolve sha256 other later s).0)
unfolding resolve revoke
resolve-revoke sha256 token other later s =
    let same = sha256 token == sha256 other in
    resolve_answer (sha256 other) later _ (revoke sha256 token s)
    ∙ ap (answer later) (find-revoke_entry (sha256 token) (sha256 other) _ s refl)
    ∙ answer-if later same none _
    ∙ if_else same none
        (sym (resolve_answer (sha256 other) later (find (has_key (sha256 other)) s.tokens) s))
