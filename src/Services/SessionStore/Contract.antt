-- ===== src/Services/SessionStore/Contract.antt =====
-- What a session store promises, whichever class of app/services/session_store.py it is: the calls
-- that the application makes of `session_store`, and an abstract store that remembers every grant.
use secure_messenger.Prelude.{
  ◌==◌, if◌then◌else◌, Text, ℕ, ◌+◌, ◌≤◌, ◌≡◌, refl, ap, Bool, false, ◌||◌, Option, none, some,
  List, [], ◌∷◌,
}
use secure_messenger.Services.SessionStore.{SessionData, TokenEntry}
use secure_messenger.Services.SessionStore.Revocation.{
  StoreCall, issue_call, resolve_call, revoke_call, revoke_device_call,
}
use secure_messenger.Services.SessionStore.Tokens.{answer}
use secure_messenger.Services.SessionStore.Items.{grant_of}

-- The operations of a session store; each gets the time of the call.
pub record StoreApi (S : Type 0) : Type 0 where
  pub issue_at : Text → ℕ → ℕ → ℕ → S → S
  pub resolve_at : Text → ℕ → S → Option SessionData × S
  pub revoke_at : Text → ℕ → S → S
  pub revoke_device_at : ℕ → ℕ → S → S

-- The answer of a call (nothing but for `resolve`) and the store after it.
unfoldable pub call_api : {S : Type 0} → StoreApi S → StoreCall → ℕ → S → Option SessionData × S
call_api api (issue_call token u d) now s = (none, api.issue_at token u d now s)
call_api api (resolve_call token) now s = api.resolve_at token now s
call_api api (revoke_call token) now s = (none, api.revoke_at token now s)
call_api api (revoke_device_call d) now s = (none, api.revoke_device_at d now s)

-- The answers to a sequence of calls, each at its time.
unfoldable pub answers :
    {S : Type 0} → StoreApi S → List (StoreCall × ℕ) → S → List (Option SessionData)
answers api [] s = []
answers api ((call, now) ∷ calls) s =
    let (r, after) = call_api api call now s in r ∷ answers api calls after

-- The abstract store: what is granted for the key of a token, and which keys were ever used.
pub record Grants : Type 0 where
  pub granted : ℕ → Option TokenEntry
  pub used : ℕ → Bool

abbrev pub no_grants : Grants
no_grants = record { granted = λ _. none; used = λ _. false }

-- A grant that is not to the device.
abbrev pub unless_of : ℕ → Option TokenEntry → Option TokenEntry
unless_of d none = none
unless_of d (some e) = if e.session.device_id == d then none else some e

-- What the operations mean: a token is good for its device until it expires or is revoked.
unfoldable pub contract : (Text → ℕ) → ℕ → StoreApi Grants
contract sha256 ttl = record {
  issue_at = λ token u d now g. record {
    granted = λ k.
        if sha256 token == k then some (grant_of (sha256 token) u d (now + ttl)) else g.granted k;
    used = λ k. (sha256 token == k) || g.used k;
  };
  resolve_at = λ token now g. (answer now (g.granted (sha256 token)), g);
  revoke_at =
      λ token now g. record g { granted = λ k. if sha256 token == k then none else g.granted k };
  revoke_device_at = λ d now g. record g { granted = λ k. unless_of d (g.granted k) };
}

-- The key of a new token was never used.
abbrev pub IsFresh : (Text → ℕ) → StoreCall → Grants → Type 0
IsFresh sha256 (issue_call token u d) g = g.used (sha256 token) ≡ false
IsFresh sha256 _ g = Unit

-- Time does not run backwards, and every new token is fresh.
abbrev pub Admits : (Text → ℕ) → ℕ → ℕ → List (StoreCall × ℕ) → Grants → Type 0
Admits sha256 ttl now [] g = Unit
Admits sha256 ttl now ((call, later) ∷ calls) g =
    (now ≤ later)
    × IsFresh sha256 call g
    × Admits sha256 ttl later calls (call_api (contract sha256 ttl) call later g).1

-- A store that follows the contract call by call; `Follows now s g` relates it from `now` on.
pub record Simulation {S : Type 0} (sha256 : Text → ℕ) (ttl : ℕ) (api : StoreApi S)
    (Follows : ℕ → S → Grants → Type 0) : Type 0 where
  pub waits :
      (now later : ℕ) (s : S) (g : Grants) → now ≤ later → Follows now s g → Follows later s g
  pub steps :
      (call : StoreCall) (now : ℕ) (s : S) (g : Grants)
      → IsFresh sha256 call g
      → Follows now s g
      → Follows now (call_api api call now s).1 (call_api (contract sha256 ttl) call now g).1
  pub replies :
      (call : StoreCall) (now : ℕ) (s : S) (g : Grants)
      → Follows now s g
      → (call_api api call now s).0 ≡ (call_api (contract sha256 ttl) call now g).0

-- Such a store answers as the contract does.
pub answers-Simulation :
    {S : Type 0} {sha256 : Text → ℕ} {ttl : ℕ} {api : StoreApi S}
    {Follows : ℕ → S → Grants → Type 0}
    → Simulation sha256 ttl api Follows
    → (now : ℕ) (calls : List (StoreCall × ℕ)) (s : S) (g : Grants) → Follows now s g
    → Admits sha256 ttl now calls g
    → answers api calls s ≡ answers (contract sha256 ttl) calls g
unfolding answers
answers-Simulation sim now [] s g f a = refl
answers-Simulation {sha256} {ttl} sim now ((call, later) ∷ calls) s g f (le, fresh, a) =
    let f' = sim.waits now later s g le f in
    rw (sim.replies call later s g f') (
      ap (λ rest. (call_api (contract sha256 ttl) call later g).0 ∷ rest)
        (answers-Simulation sim later calls _ _ (sim.steps call later s g fresh f') a))
