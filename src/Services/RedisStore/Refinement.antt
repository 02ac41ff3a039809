-- ===== src/Services/RedisStore/Refinement.antt =====
-- RedisSessionStore keeps the contract of a session store.
use secure_messenger.Prelude.{
  leb, ◌==◌, if◌then◌else◌, ==_iff, Text, ℕ, ◌+◌, ◌≤◌, ◌<◌, ◌≡◌, refl, ap, Bool, true, false, ◌&&◌,
  ◌||◌, not, Option, none, some, List, [], arith,
}
use secure_messenger.Services.SessionStore.{SessionData, TokenEntry}
use secure_messenger.Services.SessionStore.Tokens.{answer}
use secure_messenger.Services.SessionStore.Contract.{
  call_api, answers, Grants, no_grants, unless_of, contract, IsFresh, Admits, Simulation,
  answers-Simulation,
}
use secure_messenger.Services.RedisStore.{
  contains, Redis, RedisLaws, redis_revoke_device, redis_issue, redis_revoke, redis_store,
}
use secure_messenger.Services.RedisStore.Reads.{
  get-redis_issue, contains-redis_issue, get-redis_revoke, contains-redis_revoke,
  get-redis_revoke_device, contains-redis_revoke_device,
}
use secure_messenger.Services.SessionStore.Items.{grant_of}
use secure_messenger.Services.SessionStore.Revocation.{
  StoreCall, issue_call, resolve_call, revoke_call, revoke_device_call,
}

-- `b` says whether the key of a grant is in the set of device `d` at time `t`.
abbrev Held : ℕ → ℕ → Option TokenEntry → Bool → Type 0
Held t d none b = Unit
Held t d (some e) b = leb e.expires_at t ≡ false → b ≡ (e.session.device_id == d)

-- A grant that ends within `ttl` of `now`.
abbrev IsBounded : ℕ → ℕ → Option TokenEntry → Type 0
IsBounded ttl now none = Unit
IsBounded ttl now (some e) = e.expires_at ≤ now + ttl

-- What is read from now on, as long as no command comes.
record Follows {R : Type 0} (redis : Redis R) (ttl now : ℕ) (r : R) (g : Grants) : Type 0 where
  got : (key t : ℕ) → now ≤ t → redis.get key t r ≡ answer t (g.granted key)
  held : (key d t : ℕ) → now ≤ t → Held t d (g.granted key) (contains key (redis.smembers d t r))
  bounded : (key : ℕ) → IsBounded ttl now (g.granted key)
  unused :
      (key d t : ℕ) → now ≤ t → g.used key ≡ false → contains key (redis.smembers d t r) ≡ false

IsBounded-later :
    (ttl now later : ℕ) (o : Option TokenEntry)
    → now ≤ later
    → IsBounded ttl now o
    → IsBounded ttl later o
IsBounded-later ttl now later none h b = tt
IsBounded-later ttl now later (some e) h b = omega (arith, h, b)

IsBounded-if :
    (ttl now : ℕ) (b : Bool) (o p : Option TokenEntry)
    → IsBounded ttl now o
    → IsBounded ttl now p
    → IsBounded ttl now (if b then o else p)
IsBounded-if ttl now true o p h k = h
IsBounded-if ttl now false o p h k = k

IsBounded-unless :
    (ttl now d : ℕ) (o : Option TokenEntry)
    → IsBounded ttl now o
    → IsBounded ttl now (unless_of d o)
IsBounded-unless ttl now d none h = tt
IsBounded-unless ttl now d (some e) h = kept (e.session.device_id == d)
  where
    kept : (b : Bool) → IsBounded ttl now (if b then none else some e)
    kept true = tt
    kept false = h

answer-none :
    (t : ℕ) (b : Bool) (o : Option TokenEntry) (x : Option SessionData)
    → x ≡ answer t o
    → (if b then none else x) ≡ answer t (if b then none else o)
answer-none t true o x h = refl
answer-none t false o x h = h

answer-grant :
    (t : ℕ) (b : Bool) (e : TokenEntry) (o : Option TokenEntry)
    → (if b then (if leb e.expires_at t then none else some e.session) else answer t o)
      ≡ answer t (if b then some e else o)
answer-grant t true e o = refl
answer-grant t false e o = refl

-- A new grant is in the set of its device; the set lives at least as long as older grants.
Held-issue :
    (t now ttl other : ℕ) (same c_now c : Bool) (e : TokenEntry) (o : Option TokenEntry)
    → now ≤ t
    → e.expires_at ≡ now + ttl
    → (same ≡ true → c ≡ false)
    → Held now e.session.device_id o c_now
    → Held t other o c
    → IsBounded ttl now o
    → Held t other (if same then some e else o) (
        if e.session.device_id == other
        then (if leb (now + ttl) t then false else same || c_now)
        else c)
Held-issue t now ttl other true c_now c e o le ends new h k b =
    λ live. ground (arith, live, ends, new refl)
Held-issue t now ttl other false c_now c e none le ends new h k b = tt
Held-issue t now ttl other false c_now c e (some x) le ends new h k b =
    λ live. ground (arith, live, le, ends, h, k, b)

Held-revoke :
    (t d : ℕ) (same b c : Bool) (o : Option TokenEntry)
    → Held t d o c
    → Held t d (if same then none else o) (not (b && same) && c)
Held-revoke t d true b c o h = tt
Held-revoke t d false b c none h = tt
Held-revoke t d false b c (some e) h = λ live. ground (arith, h live)

answer-unless :
    (t now d : ℕ) (c : Bool) (o : Option TokenEntry)
    → now ≤ t
    → Held now d o c
    → (if c then none else answer t o) ≡ answer t (unless_of d o)
answer-unless t now d c none le h = ground arith
answer-unless t now d c (some e) le h = ground (arith, le, h)

Held-unless :
    (t d other : ℕ) (c : Bool) (o : Option TokenEntry)
    → Held t other o c
    → Held t other (unless_of d o) (if d == other then false else c)
Held-unless t d other c none h = tt
Held-unless t d other c (some e) h = kept (e.session.device_id == d) refl
  where
    kept :
        (b : Bool)
        → (e.session.device_id == d) ≡ b
        → Held t other (if b then none else some e) (if d == other then false else c)
    kept true q = tt
    kept false q = λ live. ground (arith, q, h live)

module _ {R : Type 0} (redis : Redis R) (laws : RedisLaws redis) (sha256 : Text → ℕ)
    (ttl now : ℕ) where
  issue-Follows :
      (token : Text) (u d : ℕ) (r : R) (g : Grants)
      → 0 < ttl
      → g.used (sha256 token) ≡ false
      → Follows redis ttl now r g
      → Follows redis ttl now
          (redis_issue redis sha256 ttl token u d now r)
          ((contract sha256 ttl).issue_at token u d now g)
  unfolding contract
  issue-Follows token u d r g pos fresh f = record {
    got = λ key t le. rw (get-redis_issue redis laws sha256 ttl now token u d key t r pos le) (
        rw (f.got key t le) (
          answer-grant t (sha256 token == key) (grant_of (sha256 token) u d (now + ttl))
            (g.granted key)));
    held = λ key other t le.
        rw (contains-redis_issue redis laws sha256 ttl now token u d key other t r le) (
          Held-issue t now ttl other (sha256 token == key) (contains key (redis.smembers d now r))
            (contains key (redis.smembers other t r)) (grant_of (sha256 token) u d (now + ttl))
            (g.granted key) le refl
            (λ same. f.unused key other t le (rw⁻¹ ((==_iff (sha256 token) key).0 same) fresh))
            (f.held key d now (omega arith)) (f.held key other t le) (f.bounded key));
    bounded = λ key. IsBounded-if ttl now (sha256 token == key) _ _ (omega arith) (f.bounded key);
    unused = λ key other t le new.
        rw (contains-redis_issue redis laws sha256 ttl now token u d key other t r le)
          (ground (arith, new, f.unused key d now (omega arith), f.unused key other t le));
  }

  revoke-Follows :
      (token : Text) (r : R) (g : Grants)
      → Follows redis ttl now r g
      → Follows redis ttl now
          (redis_revoke redis sha256 token now r)
          ((contract sha256 ttl).revoke_at token now g)
  unfolding contract
  revoke-Follows token r g f = record {
    got = λ key t le.
        rw (get-redis_revoke redis laws sha256 token now key t r) (
          answer-none t (sha256 token == key) (g.granted key) (redis.get key t r) (f.got key t le));
    held = λ key d t le.
        let (b, e) = contains-redis_revoke redis laws sha256 token now key d t r in
        rw e (
          Held-revoke t d (sha256 token == key) b (contains key (redis.smembers d t r))
            (g.granted key) (f.held key d t le));
    bounded = λ key. IsBounded-if ttl now (sha256 token == key) none _ tt (f.bounded key);
    unused = λ key d t le new.
        let (b, e) = contains-redis_revoke redis laws sha256 token now key d t r in
        rw e (ground (arith, f.unused key d t le new));
  }

  revoke_device-Follows :
      (d : ℕ) (r : R) (g : Grants)
      → Follows redis ttl now r g
      → Follows redis ttl now
          (redis_revoke_device redis d now r)
          ((contract sha256 ttl).revoke_device_at d now g)
  unfolding contract
  revoke_device-Follows d r g f = record {
    got = λ key t le. rw (get-redis_revoke_device redis laws d now key t r) (
        rw (f.got key t le) (
          answer-unless t now d (contains key (redis.smembers d now r)) (g.granted key) le
            (f.held key d now (omega arith))));
    held = λ key other t le. rw (contains-redis_revoke_device redis laws d now key other t r) (
        Held-unless t d other (contains key (redis.smembers other t r)) (g.granted key)
          (f.held key other t le));
    bounded = λ key. IsBounded-unless ttl now d (g.granted key) (f.bounded key);
    unused = λ key other t le new.
        rw (contains-redis_revoke_device redis laws d now key other t r)
          (ground (arith, f.unused key other t le new));
  }

  call-Follows :
      (call : StoreCall) (r : R) (g : Grants)
      → 0 < ttl
      → IsFresh sha256 call g
      → Follows redis ttl now r g
      → Follows redis ttl now
          (call_api (redis_store redis sha256 ttl) call now r).1
          (call_api (contract sha256 ttl) call now g).1
  unfolding call_api redis_store
  call-Follows (issue_call token u d) r g pos fresh f = issue-Follows token u d r g pos fresh f
  call-Follows (resolve_call token) r g pos fresh f = unfold contract in f
  call-Follows (revoke_call token) r g pos fresh f = revoke-Follows token r g f
  call-Follows (revoke_device_call d) r g pos fresh f = revoke_device-Follows d r g f

  call-answers :
      (call : StoreCall) (r : R) (g : Grants)
      → Follows redis ttl now r g
      → (call_api (redis_store redis sha256 ttl) call now r).0
        ≡ (call_api (contract sha256 ttl) call now g).0
  unfolding call_api redis_store contract
  call-answers (issue_call token u d) r g f = refl
  call-answers (resolve_call token) r g f = f.got (sha256 token) now (omega arith)
  call-answers (revoke_call token) r g f = refl
  call-answers (revoke_device_call d) r g f = refl

-- A server with no key of the application.
pub record IsEmpty {R : Type 0} (redis : Redis R) (r : R) : Type 0 where
  pub no_token : (key t : ℕ) → redis.get key t r ≡ none
  pub no_member : (d t : ℕ) → redis.smembers d t r ≡ []

module _ {R : Type 0} (redis : Redis R) (laws : RedisLaws redis) (sha256 : Text → ℕ) (ttl : ℕ) where
  redis_store-Simulation :
      0 < ttl → Simulation sha256 ttl (redis_store redis sha256 ttl) (Follows redis ttl)
  redis_store-Simulation pos = record {
    waits = λ now later r g le f. record {
      got = λ key t h. f.got key t (omega (arith, le, h));
      held = λ key d t h. f.held key d t (omega (arith, le, h));
      bounded = λ key. IsBounded-later ttl now later (g.granted key) le (f.bounded key);
      unused = λ key d t h. f.unused key d t (omega (arith, le, h));
    };
    steps = λ call now r g fresh f. call-Follows redis laws sha256 ttl now call r g pos fresh f;
    replies = λ call now r g f. call-answers redis laws sha256 ttl now call r g f;
  }

  -- From an empty server on, RedisSessionStore answers every sequence of calls as the contract
  -- does, if Redis keeps its laws, tokens live for some time, time does not run backwards and no
  -- token is issued twice.
  pub redis_store_keeps_contract :
      (r : R) (now : ℕ) (calls : List (StoreCall × ℕ))
      → IsEmpty redis r
      → 0 < ttl
      → Admits sha256 ttl now calls no_grants
      → answers (redis_store redis sha256 ttl) calls r
        ≡ answers (contract sha256 ttl) calls no_grants
  redis_store_keeps_contract r now calls empty pos admitted =
      answers-Simulation (redis_store-Simulation pos) now calls r no_grants
        (record {
          got = λ key t le. empty.no_token key t;
          held = λ key d t le. tt;
          bounded = λ key. tt;
          unused = λ key d t le new. ap (contains key) (empty.no_member d t);
        })
        admitted
