-- ===== src/Services/SessionStore/Refinement.antt =====
-- InMemorySessionStore keeps the contract of a session store.
use secure_messenger.Prelude.{
  leb, ◌==◌, if◌then◌else◌, ==_iff, Bool-cases, Option-cases, Text, ℕ, ◌≤◌, ◌≡◌, refl, sym, ap, ◌∙◌,
  inl, inr, Bool, true, false, Option, none, some, List, [], arith,
}
use secure_messenger.Services.SessionStore.{
  TokenEntry, SessionStore, forget, resolve_entry, revoke_device, issue, resolve, revoke,
}
use secure_messenger.Services.SessionStore.Items.{
  is_of, item, IsExact, forget-IsExact, item-forget, item-issue, issue-IsExact, item-revoke,
  revoke-IsExact, revoke-ttl_seconds, item-revoke_device, revoke_device-IsExact,
}
use secure_messenger.Services.SessionStore.Tokens.{answer, resolve_answer}
use secure_messenger.Services.SessionStore.Contract.{
  StoreApi, call_api, answers, Grants, no_grants, unless_of, contract, IsFresh, Admits, Simulation,
  answers-Simulation,
}
use secure_messenger.Services.SessionStore.Revocation.{
  StoreCall, issue_call, resolve_call, revoke_call, revoke_device_call,
}

-- InMemorySessionStore as a session store.
unfoldable pub in_memory : (Text → ℕ) → StoreApi SessionStore
in_memory sha256 = record {
  issue_at = λ token u d now s. issue sha256 token u d now s;
  resolve_at = λ token now s. resolve sha256 token now s;
  revoke_at = λ token now s. revoke sha256 token s;
  revoke_device_at = λ d now s. revoke_device d s;
}

abbrev pub empty_memory : ℕ → SessionStore
empty_memory ttl = record { ttl_seconds = ttl; tokens = []; device_keys = [] }

-- The item of a key is what is granted for it; an expired grant may be gone.
abbrev Matches : ℕ → Option TokenEntry → Option TokenEntry → Type 0
Matches now none p = answer now p ≡ none
Matches now (some e) p = p ≡ some e

record Follows (ttl now : ℕ) (s : SessionStore) (g : Grants) : Type 0 where
  ttl_kept : s.ttl_seconds ≡ ttl
  exact : IsExact s
  matches : (key : ℕ) → Matches now (item key s) (g.granted key)
  unused : (key : ℕ) → g.used key ≡ false → item key s ≡ none

answer-later :
    (now later : ℕ) (p : Option TokenEntry)
    → now ≤ later
    → answer now p ≡ none
    → answer later p ≡ none
answer-later now later none h a = refl
answer-later now later (some e) h a = ground (arith, h, a)

Matches-later :
    (now later : ℕ) (o p : Option TokenEntry) → now ≤ later → Matches now o p → Matches later o p
Matches-later now later none p h m = answer-later now later p h m
Matches-later now later (some e) p h m = m

Matches-answer : (now : ℕ) (o p : Option TokenEntry) → Matches now o p → answer now o ≡ answer now p
Matches-answer now none p m = sym m
Matches-answer now (some e) p m = ap (answer now) (sym m)

Matches-if :
    (now : ℕ) (b : Bool) (o p o' p' : Option TokenEntry)
    → Matches now o p
    → Matches now o' p'
    → Matches now (if b then o else o') (if b then p else p')
Matches-if now true o p o' p' m m' = m
Matches-if now false o p o' p' m m' = m'

-- An expired item may go.
Matches-expired :
    (now : ℕ) (b : Bool) (e : TokenEntry) (o p : Option TokenEntry)
    → (b ≡ true → o ≡ some e)
    → leb e.expires_at now ≡ true
    → Matches now o p
    → Matches now (if b then none else o) p
Matches-expired now false e o p h late m = m
Matches-expired now true e o p h late m =
    rw⁻¹ (Matches-answer now o p m) (rw (h refl) (ground (arith, late)))

-- The grants to a device go with its items.
Matches-unless :
    (now d : ℕ) (o p : Option TokenEntry)
    → Matches now o p
    → Matches now (if is_of d o then none else o) (unless_of d p)
Matches-unless now d none none m = refl
Matches-unless now d none (some e) m = ground (arith, m)
Matches-unless now d (some x) p m = rw m (both (x.session.device_id == d))
  where
    both : (b : Bool) → Matches now (if b then none else some x) (if b then none else some x)
    both true = refl
    both false = refl

none-if : (b : Bool) (o : Option TokenEntry) → o ≡ none → (if b then none else o) ≡ none
none-if true o h = refl
none-if false o h = h

module _ (sha256 : Text → ℕ) (ttl now : ℕ) where
  issue-Follows :
      (token : Text) (u d : ℕ) (s : SessionStore) (g : Grants)
      → g.used (sha256 token) ≡ false
      → Follows ttl now s g
      → Follows ttl now
          (issue sha256 token u d now s)
          ((contract sha256 ttl).issue_at token u d now g)
  unfolding contract
  issue-Follows token u d s g fresh f = record {
    ttl_kept = unfold issue in f.ttl_kept;
    exact = issue-IsExact sha256 token u d now s (f.unused (sha256 token) fresh) f.exact;
    matches = λ key.
        rw (item-issue sha256 token u d now key s)
          (rw f.ttl_kept (Matches-if now (sha256 token == key) _ _ _ _ refl (f.matches key)));
    unused = λ key h. rw (item-issue sha256 token u d now key s) (ground (arith, h, f.unused key));
  }

  forget-Follows :
      (key : ℕ) (e : TokenEntry) (s : SessionStore) (g : Grants)
      → item key s ≡ some e
      → leb e.expires_at now ≡ true
      → Follows ttl now s g
      → Follows ttl now (forget key e.session.device_id s) g
  forget-Follows key e s g h late f = record {
    ttl_kept = unfold forget in f.ttl_kept;
    exact = forget-IsExact key e s h f.exact;
    matches = λ other. rw (item-forget key e.session.device_id other s) (
        Matches-expired now (key == other) e (item other s) (g.granted other)
          (λ (same : key == other ≡ true). rw⁻¹ ((==_iff key other).0 same) h) late
          (f.matches other));
    unused = λ other u.
        rw (item-forget key e.session.device_id other s)
          (none-if (key == other) _ (f.unused other u));
  }

  resolve-Follows :
      (token : Text) (s : SessionStore) (g : Grants)
      → Follows ttl now s g
      → Follows ttl now (resolve sha256 token now s).1 g
  unfolding resolve resolve_entry
  resolve-Follows token s g f = elim (Option-cases (item (sha256 token) s)) [
    | inl absent ↦ rw absent f
    | inr (e, found) ↦ rw found (elim (Bool-cases (leb e.expires_at now)) [
      | inl late ↦ rw late (forget-Follows (sha256 token) e s g found late f)
      | inr live ↦ rw live f
    ])
  ]

  revoke-Follows :
      (token : Text) (s : SessionStore) (g : Grants)
      → Follows ttl now s g
      → Follows ttl now (revoke sha256 token s) ((contract sha256 ttl).revoke_at token now g)
  unfolding contract
  revoke-Follows token s g f = record {
    ttl_kept = revoke-ttl_seconds sha256 token s ∙ f.ttl_kept;
    exact = revoke-IsExact sha256 token s f.exact;
    matches = λ key.
        rw (item-revoke sha256 token key s)
          (Matches-if now (sha256 token == key) none none _ _ refl (f.matches key));
    unused = λ key u.
        rw (item-revoke sha256 token key s) (none-if (sha256 token == key) _ (f.unused key u));
  }

  revoke_device-Follows :
      (d : ℕ) (s : SessionStore) (g : Grants)
      → Follows ttl now s g
      → Follows ttl now (revoke_device d s) ((contract sha256 ttl).revoke_device_at d now g)
  unfolding contract
  revoke_device-Follows d s g f = record {
    ttl_kept = unfold revoke_device in f.ttl_kept;
    exact = revoke_device-IsExact d s f.exact;
    matches =
        λ key. rw (item-revoke_device d key s f.exact) (Matches-unless now d _ _ (f.matches key));
    unused = λ key u.
        rw (item-revoke_device d key s f.exact) (none-if (is_of d (item key s)) _ (f.unused key u));
  }

  call-Follows :
      (call : StoreCall) (s : SessionStore) (g : Grants)
      → IsFresh sha256 call g
      → Follows ttl now s g
      → Follows ttl now
          (call_api (in_memory sha256) call now s).1
          (call_api (contract sha256 ttl) call now g).1
  unfolding call_api in_memory
  call-Follows (issue_call token u d) s g fresh f = issue-Follows token u d s g fresh f
  call-Follows (resolve_call token) s g fresh f = unfold contract in resolve-Follows token s g f
  call-Follows (revoke_call token) s g fresh f = revoke-Follows token s g f
  call-Follows (revoke_device_call d) s g fresh f = revoke_device-Follows d s g f

  call-answers :
      (call : StoreCall) (s : SessionStore) (g : Grants)
      → Follows ttl now s g
      → (call_api (in_memory sha256) call now s).0 ≡ (call_api (contract sha256 ttl) call now g).0
  unfolding call_api in_memory contract resolve
  call-answers (issue_call token u d) s g f = refl
  call-answers (resolve_call token) s g f =
      resolve_answer (sha256 token) now _ s
      ∙ Matches-answer now (item (sha256 token) s) (g.granted (sha256 token))
          (f.matches (sha256 token))
  call-answers (revoke_call token) s g f = refl
  call-answers (revoke_device_call d) s g f = refl

in_memory-Simulation :
    (sha256 : Text → ℕ) (ttl : ℕ) → Simulation sha256 ttl (in_memory sha256) (Follows ttl)
in_memory-Simulation sha256 ttl = record {
  waits = λ now later s g le f. record {
    ttl_kept = f.ttl_kept;
    exact = f.exact;
    matches = λ key. Matches-later now later (item key s) (g.granted key) le (f.matches key);
    unused = f.unused;
  };
  steps = λ call now s g fresh f. call-Follows sha256 ttl now call s g fresh f;
  replies = λ call now s g f. call-answers sha256 ttl now call s g f;
}

-- From an empty store on, InMemorySessionStore answers every sequence of calls as the contract
-- does, if time does not run backwards and no token is issued twice.
pub in_memory_keeps_contract :
    (sha256 : Text → ℕ) (ttl now : ℕ) (calls : List (StoreCall × ℕ))
    → Admits sha256 ttl now calls no_grants
    → answers (in_memory sha256) calls (empty_memory ttl)
      ≡ answers (contract sha256 ttl) calls no_grants
in_memory_keeps_contract sha256 ttl now calls admitted =
    answers-Simulation (in_memory-Simulation sha256 ttl) now calls (empty_memory ttl) no_grants
      (record {
        ttl_kept = refl;
        exact = λ key d. refl;
        matches = λ key. refl;
        unused = λ key h. refl;
      })
      admitted
