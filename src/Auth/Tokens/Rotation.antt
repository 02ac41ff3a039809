-- ===== src/Auth/Tokens/Rotation.antt =====
-- `refresh`: a refresh token is good for one use.
use mathlib.Core.Path.{subst}
use secure_messenger.Prelude.{
  ◌==◌, Bool-cases, find, count, update_where, ℕ, ◌≤◌, ◌≡◌, refl, ◌⊎◌, inl, inr, false, Option,
  none, some, List, [], ◌∷◌, arith,
}
use secure_messenger.Model.{Db}
use secure_messenger.Model.Accounts.{Device, RefreshSession}
use secure_messenger.Http.{status, Result, ok, err, handle}
use secure_messenger.Auth.Tokens.{
  Fresh, set_refresh_hash, issue_tokens, has_refresh_hash, find_refresh, usable_session,
  revoke_refresh, set_last_seen, refresh_device, refresh,
}
use secure_messenger.Http.Ends.{
  Ends, Ends-gets, Ends-or_raise, Ends-modify, Ends-commit, Ends-pure_last, Ends-none, handle_by,
  Ends-found,
}

-- The unique index on the digests.
abbrev pub IsUniqueRefresh : ℕ → Db → Type 0
IsUniqueRefresh hash db = count (has_refresh_hash hash) db.refresh_sessions ≤ 1

abbrev with_hash : ℕ → RefreshSession → RefreshSession
with_hash hash r = record r { refresh_token_hash = hash }

none_left :
    (old new id : ℕ) (rs : List RefreshSession)
    → (new == old) ≡ false
    → count (has_refresh_hash old) rs ≡ 0
    → find (has_refresh_hash old) (update_where (λ r. r.id == id) (with_hash new) rs) ≡ none
none_left old new id [] h e = refl
none_left old new id (r ∷ rs) h e = ground (arith, h, none_left old new id rs h)

replaced :
    (old new : ℕ) (r : RefreshSession) (rs : List RefreshSession)
    → (new == old) ≡ false
    → count (has_refresh_hash old) rs ≤ 1
    → find (has_refresh_hash old) rs ≡ some r
    → find (has_refresh_hash old) (update_where (λ x. x.id == r.id) (with_hash new) rs) ≡ none
replaced old new r [] h u e = absurd (ground arith)
replaced old new r (x ∷ rs) h u e = elim (Bool-cases (has_refresh_hash old x)) [
  | inl here_it ↦ ground (arith, h, here_it, none_left old new r.id rs h)
  | inr elsewhere ↦ ground (arith, h, elsewhere, replaced old new r rs h)
]

-- A revoked session is found, and not usable.
revoked_unusable :
    (hash now later : ℕ) (r : RefreshSession) (rs : List RefreshSession)
    → find (has_refresh_hash hash) rs ≡ some r
    → usable_session later (
        find
          (has_refresh_hash hash)
          (update_where (λ x. x.id == r.id) (λ x. record x { revoked_at = some now }) rs))
      ≡ none
unfolding usable_session
revoked_unusable hash now later r [] e = absurd (ground arith)
revoked_unusable hash now later r (x ∷ rs) e = ground (arith, revoked_unusable hash now later r rs)

-- What a refresh leaves of the token that was sent.
abbrev pub IsSpent : ℕ → ℕ → Db → Type 0
IsSpent hash later db = usable_session later (find_refresh hash db) ≡ none

abbrev pub RefreshLeaves : ℕ → ℕ → Db → Result Device → Db → Type 0
RefreshLeaves hash later db (ok d) after = IsSpent hash later after
RefreshLeaves hash later db (err e) after = after ≡ db ⊎ IsSpent hash later after

set_hash-IsSpent :
    (f : Fresh) (hash now later d : ℕ) (r : RefreshSession) (db : Db)
    → (f.refresh_hash == hash) ≡ false
    → IsUniqueRefresh hash db
    → find_refresh hash db ≡ some r
    → IsSpent hash later (set_refresh_hash r.id f.refresh_hash (set_last_seen d now db))
unfolding set_refresh_hash find_refresh set_last_seen usable_session
set_hash-IsSpent f hash now later d r db new u found =
    rw (replaced hash f.refresh_hash r db.refresh_sessions new u found) refl

revoked-IsSpent :
    (hash now later : ℕ) (r : RefreshSession) (db : Db)
    → find_refresh hash db ≡ some r
    → IsSpent hash later (revoke_refresh r.id now db)
unfolding revoke_refresh find_refresh
revoked-IsSpent hash now later r db found =
    revoked_unusable hash now later r db.refresh_sessions found

used_is_found :
    (now : ℕ) (o : Option RefreshSession) (r : RefreshSession)
    → usable_session now o ≡ some r
    → o ≡ some r
unfolding usable_session
used_is_found now none r e = e
used_is_found now (some x) r e = ground (arith, e)

refresh_device-Leaves :
    (f : Fresh) (hash now later : ℕ) (r : RefreshSession) (o : Option Device) (db : Db)
    → (f.refresh_hash == hash) ≡ false
    → IsUniqueRefresh hash db
    → find_refresh hash db ≡ some r
    → Ends
        (refresh_device f now r o)
        (record { committed = db; working = db })
        (λ x t. RefreshLeaves hash later db x t.committed)
unfolding refresh_device issue_tokens
refresh_device-Leaves f hash now later r none db new u found =
    Ends-modify _ _ (Ends-commit _ (Ends-none _ (inr (revoked-IsSpent hash now later r db found))))
refresh_device-Leaves f hash now later r (some d) db new u found = Ends-modify _ _ (
    Ends-modify _ _
      (Ends-commit _ (Ends-pure_last _ (set_hash-IsSpent f hash now later d.id r db new u found))))

-- The token that was sent is not usable afterwards at any time, or nothing has changed.
pub refresh-RefreshLeaves :
    (f : Fresh) (hash now later : ℕ) (db : Db)
    → (f.refresh_hash == hash) ≡ false
    → IsUniqueRefresh hash db
    → let (r, after) = handle (refresh f (some hash) now) db in RefreshLeaves hash later db r after
unfolding refresh
refresh-RefreshLeaves f hash now later db new u = handle_by (RefreshLeaves hash later db) _ db (
    Ends-found _ _ _ hash refl (
      Ends-gets _ _ (
        Ends-or_raise _ _ _ (λ _. inl refl)
          λ r usable. Ends-gets _ _ (
            Ends-gets _ _ (
              refresh_device-Leaves f hash now later r _ db new u
                (used_is_found now _ r usable))))))

spent_is_refused :
    (f : Fresh) (hash now : ℕ) (db : Db)
    → IsSpent hash now db
    → ◌≡◌ {A = Result Device × Db} (handle (refresh f (some hash) now) db) (err (status 401), db)
unfolding refresh
spent_is_refused f hash now db spent =
    handle_by (λ r t. ◌≡◌ {A = Result Device × Db} (r, t) (err (status 401), db)) _ db
      (Ends-found _ _ _ hash refl
        (Ends-gets _ _ (Ends-or_raise _ _ _ (λ _. refl) λ r usable. clash_none spent usable)))
  where
    clash_none :
        {A : Type 0} {o : Option RefreshSession} {r : RefreshSession} → o ≡ none → o ≡ some r → A
    clash_none p q = absurd (ground (arith, p, q))

-- A refresh token is good for one use: once POST /auth/refresh has answered it with new tokens, a
-- further request with it, at any time, is refused with 401 and changes nothing, if digests are
-- unique in the table and the new token has another digest.
pub refresh_once :
    (f g : Fresh) (hash now later : ℕ) (db : Db) (d : Device)
    → (f.refresh_hash == hash) ≡ false
    → IsUniqueRefresh hash db
    → (handle (refresh f (some hash) now) db).0 ≡ ok d
    → ◌≡◌ {A = Result Device × Db}
        (handle (refresh g (some hash) later) (handle (refresh f (some hash) now) db).1)
        (err (status 401), (handle (refresh f (some hash) now) db).1)
refresh_once f g hash now later db d new u answered = spent_is_refused g hash later _ (
    subst (λ r. RefreshLeaves hash later db r (handle (refresh f (some hash) now) db).1) answered
      (refresh-RefreshLeaves f hash now later db new u))
