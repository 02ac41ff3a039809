-- ===== src/Services/SessionStore/Revocation.antt =====
-- The two dictionaries of the session store agree, so that revoking a device ends all its sessions.
use secure_messenger.Prelude.{
  leb, ◌==◌, Bool-cases, find, any, update_where, delete_where, Text, ℕ, ◌≡◌, refl, inl, inr, Bool,
  true, false, not, Option, none, some, List, [], ◌∷◌, ◌++◌, arith,
}
use secure_messenger.Services.SessionStore.{
  SessionData, TokenEntry, SessionStore, has_key, set_token, forget, resolve_entry, revoke_entry,
  revoke_device, issue, resolve, revoke,
}
use secure_messenger.Services.SessionStore.Index.{
  IsIndexed, IsWithout, Indexed-forget, Indexed-revoke, revoke-Without, Indexed-issue,
}

-- What the store keeps to.
abbrev pub IsConsistent : SessionStore → Type 0
IsConsistent s = IsIndexed s.device_keys s.tokens

-- A call of the store.
pub data StoreCall : Type 0 where
  issue_call : Text → ℕ → ℕ → StoreCall
  resolve_call : Text → StoreCall
  revoke_call : Text → StoreCall
  revoke_device_call : ℕ → StoreCall

-- What a call leaves; `now` is its time.
unfoldable pub run_call : (Text → ℕ) → StoreCall → ℕ → SessionStore → SessionStore
unfolding issue resolve revoke revoke_device
run_call sha256 (issue_call token u d) now s = issue sha256 token u d now s
run_call sha256 (resolve_call token) now s = (resolve sha256 token now s).1
run_call sha256 (revoke_call token) now s = revoke sha256 token s
run_call sha256 (revoke_device_call d) now s = revoke_device d s

issue-IsConsistent :
    (sha256 : Text → ℕ) (token : Text) (u d now : ℕ) (s : SessionStore)
    → IsConsistent s
    → IsConsistent (issue sha256 token u d now s)
unfolding issue
issue-IsConsistent sha256 token u d now s v = Indexed-issue s.device_keys _ s.tokens v

resolve_entry-IsConsistent :
    (key now : ℕ) (o : Option TokenEntry) (s : SessionStore)
    → IsConsistent s
    → IsConsistent (resolve_entry key now o s).1
unfolding resolve_entry forget
resolve_entry-IsConsistent key now none s v = v
resolve_entry-IsConsistent key now (some e) s v = elim (Bool-cases (leb e.expires_at now)) [
  | inl late ↦ rw late (Indexed-forget s.device_keys e.session.device_id key s.tokens v)
  | inr fresh ↦ rw fresh v
]

revoke_entry-IsConsistent :
    (key : ℕ) (o : Option TokenEntry) (s : SessionStore)
    → IsConsistent s
    → IsConsistent (revoke_entry key o s)
unfolding revoke_entry forget
revoke_entry-IsConsistent key none s v = v
revoke_entry-IsConsistent key (some e) s v =
    Indexed-forget s.device_keys e.session.device_id key s.tokens v

revoke_device-IsConsistent :
    (d : ℕ) (s : SessionStore) → IsConsistent s → IsConsistent (revoke_device d s)
unfolding revoke_device
revoke_device-IsConsistent d s v = Indexed-revoke s.device_keys d s.tokens v

run_call-IsConsistent :
    (sha256 : Text → ℕ) (call : StoreCall) (now : ℕ) (s : SessionStore)
    → IsConsistent s
    → IsConsistent (run_call sha256 call now s)
unfolding run_call resolve revoke
run_call-IsConsistent sha256 (issue_call token u d) now s v =
    issue-IsConsistent sha256 token u d now s v
run_call-IsConsistent sha256 (resolve_call token) now s v =
    resolve_entry-IsConsistent (sha256 token) now _ s v
run_call-IsConsistent sha256 (revoke_call token) now s v =
    revoke_entry-IsConsistent (sha256 token) _ s v
run_call-IsConsistent sha256 (revoke_device_call d) now s v = revoke_device-IsConsistent d s v

-- A sequence of calls, each at its time, the latest outermost.
pub data Calls (sha256 : Text → ℕ) (allowed : StoreCall → Bool) (start : SessionStore)
    : SessionStore → Type 0 where
  no_call : Calls sha256 allowed start start
  then_call :
      {s : SessionStore}
      → Calls sha256 allowed start s
      → (call : StoreCall) (now : ℕ) → allowed call ≡ true
      → Calls sha256 allowed start (run_call sha256 call now s)

-- Whatever calls a consistent store gets, its two dictionaries stay consistent: every token is in
-- the set of its device.
pub Calls-IsConsistent :
    {sha256 : Text → ℕ} {allowed : StoreCall → Bool} {start s : SessionStore}
    → IsConsistent start
    → Calls sha256 allowed start s
    → IsConsistent s
Calls-IsConsistent v no_call = v
Calls-IsConsistent {sha256} v (then_call {s} before call now ok_call) =
    run_call-IsConsistent sha256 call now s (Calls-IsConsistent v before)

-- Calls that issue no token to the device.
abbrev pub no_issue_to : ℕ → StoreCall → Bool
no_issue_to d (issue_call token u e) = not (e == d)
no_issue_to d _ = true

delete-Without :
    (d : ℕ) (q : TokenEntry → Bool) (es : List TokenEntry)
    → IsWithout d es
    → IsWithout d (delete_where q es)
delete-Without d q [] h = refl
delete-Without d q (e ∷ es) h = ground (arith, delete-Without d q es)

update-Without :
    (d : ℕ) (e : TokenEntry) (q : TokenEntry → Bool) (es : List TokenEntry)
    → not (e.session.device_id == d) ≡ true
    → IsWithout d es
    → IsWithout d (update_where q (λ _. e) es)
update-Without d e q [] h v = refl
update-Without d e q (x ∷ es) h v = ground (arith, h, update-Without d e q es h)

append-Without :
    (d : ℕ) (e : TokenEntry) (es : List TokenEntry)
    → not (e.session.device_id == d) ≡ true
    → IsWithout d es
    → IsWithout d (es ++ e ∷ [])
append-Without d e [] h v = ground (arith, h)
append-Without d e (x ∷ es) h v = ground (arith, h, append-Without d e es h)

set_token-Without :
    (d : ℕ) (e : TokenEntry) (es : List TokenEntry)
    → not (e.session.device_id == d) ≡ true
    → IsWithout d es
    → IsWithout d (set_token e es)
unfolding set_token
set_token-Without d e es h v = elim (Bool-cases (any (has_key e.key) es)) [
  | inl there ↦ rw there (update-Without d e (has_key e.key) es h v)
  | inr absent ↦ rw absent (append-Without d e es h v)
]

resolve_entry-Without :
    (d key now : ℕ) (o : Option TokenEntry) (s : SessionStore)
    → IsWithout d s.tokens
    → IsWithout d (resolve_entry key now o s).1.tokens
unfolding resolve_entry forget
resolve_entry-Without d key now none s v = v
resolve_entry-Without d key now (some e) s v = elim (Bool-cases (leb e.expires_at now)) [
  | inl late ↦ rw late (delete-Without d (has_key key) s.tokens v)
  | inr fresh ↦ rw fresh v
]

revoke_entry-Without :
    (d key : ℕ) (o : Option TokenEntry) (s : SessionStore)
    → IsWithout d s.tokens
    → IsWithout d (revoke_entry key o s).tokens
unfolding revoke_entry forget
revoke_entry-Without d key none s v = v
revoke_entry-Without d key (some e) s v = delete-Without d (has_key key) s.tokens v

run_call-Without :
    (sha256 : Text → ℕ) (d : ℕ) (call : StoreCall) (now : ℕ) (s : SessionStore)
    → no_issue_to d call ≡ true
    → IsWithout d s.tokens
    → IsWithout d (run_call sha256 call now s).tokens
unfolding run_call issue resolve revoke revoke_device
run_call-Without sha256 d (issue_call token u e) now s h v = set_token-Without d _ s.tokens h v
run_call-Without sha256 d (resolve_call token) now s h v =
    resolve_entry-Without d (sha256 token) now _ s v
run_call-Without sha256 d (revoke_call token) now s h v =
    revoke_entry-Without d (sha256 token) _ s v
run_call-Without sha256 d (revoke_device_call e) now s h v = delete-Without d _ s.tokens v

stays_out :
    {sha256 : Text → ℕ} (d : ℕ) {start s : SessionStore}
    → IsWithout d start.tokens
    → Calls sha256 (no_issue_to d) start s
    → IsWithout d s.tokens
stays_out d v no_call = v
stays_out {sha256} d v (then_call {s} before call now ok_call) =
    run_call-Without sha256 d call now s ok_call (stays_out d v before)

find-Without :
    (d : ℕ) (p : TokenEntry → Bool) (es : List TokenEntry) (e : TokenEntry)
    → IsWithout d es
    → find p es ≡ some e
    → (e.session.device_id == d) ≡ false
find-Without d p [] e v h = absurd (ground arith)
find-Without d p (x ∷ es) e v h = ground (arith, find-Without d p es e)

resolve_entry-not_of :
    (d key now : ℕ) (o : Option TokenEntry) (s : SessionStore) (x : SessionData)
    → ((e : TokenEntry) → o ≡ some e → (e.session.device_id == d) ≡ false)
    → (resolve_entry key now o s).0 ≡ some x
    → (x.device_id == d) ≡ false
unfolding resolve_entry
resolve_entry-not_of d key now none s x h found = absurd (ground arith)
resolve_entry-not_of d key now (some e) s x h found = ground (arith, h e refl)

pub revoke_device-Without :
    (d : ℕ) (s : SessionStore) → IsConsistent s → IsWithout d (revoke_device d s).tokens
unfolding revoke_device
revoke_device-Without d s v = revoke-Without s.device_keys d s.tokens v

-- After `revoke_device` on a consistent store, no token of the device resolves any more, whatever
-- the store is called for afterwards, until a token is issued to the device again.
pub revoke_device_ends_sessions :
    (sha256 : Text → ℕ) (d : ℕ) (s t : SessionStore) (token : Text) (now : ℕ) (x : SessionData)
    → IsConsistent s
    → Calls sha256 (no_issue_to d) (revoke_device d s) t
    → (resolve sha256 token now t).0 ≡ some x
    → (x.device_id == d) ≡ false
unfolding resolve
revoke_device_ends_sessions sha256 d s t token now x v calls found =
    resolve_entry-not_of d (sha256 token) now _ t x
      (λ e. find-Without d _ t.tokens e (stays_out d (revoke_device-Without d s v) calls)) found
