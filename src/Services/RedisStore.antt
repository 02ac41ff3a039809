-- ===== src/Services/RedisStore.antt =====
-- app/services/session_store.py: RedisSessionStore. Redis is a server outside the repository: its
-- commands are the operations of an interface, and its laws are what the Redis manual says of them.
-- An operation of the store that sends several commands is one step, as if no other client came in
-- between.
-- The prefixes session: and device-sessions: keep the two kinds of keys apart. Time is in seconds.
pub mod Refinement
pub mod Samples
pub mod Reads
use secure_messenger.Prelude.{
  leb, ◌==◌, if◌then◌else◌, any, Text, ℕ, ◌+◌, ◌≤◌, ◌<◌, ◌≡◌, Bool, false, ◌&&◌, ◌||◌, not, Option,
  none, some, List, [], ◌∷◌,
}
use secure_messenger.Services.SessionStore.{SessionData}
use secure_messenger.Services.SessionStore.Contract.{StoreApi}

-- `key in keys`
abbrev pub contains : ℕ → List ℕ → Bool
contains key keys = any (λ k. k == key) keys

-- The commands that the store sends, on the strings under session:<key> and on the sets under
-- device-sessions:<device>. A read and a command with a time to live get the time.
pub record Redis (R : Type 0) : Type 0 where
  pub get : ℕ → ℕ → R → Option SessionData
  pub smembers : ℕ → ℕ → R → List ℕ
  pub set_ex : ℕ → SessionData → ℕ → ℕ → R → R
  pub sadd : ℕ → ℕ → ℕ → R → R
  pub expire : ℕ → ℕ → ℕ → R → R
  pub srem : ℕ → ℕ → R → R
  pub delete_tokens : List ℕ → R → R
  pub delete_set : ℕ → R → R

-- What the strings and the sets are at a time after a command.
pub record RedisLaws {R : Type 0} (redis : Redis R) : Type 0 where
  -- SET key value EX ttl, for a ttl that is not 0
  pub get-set_ex :
      (key k : ℕ) (x : SessionData) (ttl now t : ℕ) (r : R)
      → 0 < ttl
      → now ≤ t
      → redis.get k t (redis.set_ex key x ttl now r)
        ≡ (if key == k then (if leb (now + ttl) t then none else some x) else redis.get k t r)
  pub smembers-set_ex :
      (key d : ℕ) (x : SessionData) (ttl now t : ℕ) (r : R)
      → redis.smembers d t (redis.set_ex key x ttl now r) ≡ redis.smembers d t r
  pub get-sadd :
      (d key k now t : ℕ) (r : R) → redis.get k t (redis.sadd d key now r) ≡ redis.get k t r
  -- SADD adds one member.
  pub contains-sadd :
      (d key k now : ℕ) (r : R)
      → contains k (redis.smembers d now (redis.sadd d key now r))
        ≡ ((key == k) || contains k (redis.smembers d now r))
  pub smembers-sadd_other :
      (d other key now t : ℕ) (r : R)
      → (d == other) ≡ false
      → redis.smembers other t (redis.sadd d key now r) ≡ redis.smembers other t r
  pub get-expire :
      (d ttl k now t : ℕ) (r : R) → redis.get k t (redis.expire d ttl now r) ≡ redis.get k t r
  -- EXPIRE sets the time from which on the set is empty.
  pub smembers-expire :
      (d other ttl now t : ℕ) (r : R)
      → now ≤ t
      → redis.smembers other t (redis.expire d ttl now r) ≡ (
          if d == other
          then (if leb (now + ttl) t then [] else redis.smembers d now r)
          else redis.smembers other t r)
  pub get-srem : (d key k t : ℕ) (r : R) → redis.get k t (redis.srem d key r) ≡ redis.get k t r
  pub contains-srem :
      (d key other k t : ℕ) (r : R)
      → contains k (redis.smembers other t (redis.srem d key r))
        ≡ (not (d == other && key == k) && contains k (redis.smembers other t r))
  pub get-delete_tokens :
      (keys : List ℕ) (k t : ℕ) (r : R)
      → redis.get k t (redis.delete_tokens keys r)
        ≡ (if contains k keys then none else redis.get k t r)
  pub smembers-delete_tokens :
      (keys : List ℕ) (d t : ℕ) (r : R)
      → redis.smembers d t (redis.delete_tokens keys r) ≡ redis.smembers d t r
  pub get-delete_set : (d k t : ℕ) (r : R) → redis.get k t (redis.delete_set d r) ≡ redis.get k t r
  pub smembers-delete_set :
      (d other t : ℕ) (r : R)
      → redis.smembers other t (redis.delete_set d r)
        ≡ (if d == other then [] else redis.smembers other t r)

module _ {R : Type 0} (redis : Redis R) where
  -- The key is taken out of the set of the device that the value names.
  unfoldable pub redis_discard : ℕ → Option SessionData → R → R
  redis_discard key none r = r
  redis_discard key (some x) r = redis.srem x.device_id key r

  -- `if keys: await self.redis.delete(*keys)`
  unfoldable pub redis_delete : List ℕ → R → R
  redis_delete [] r = r
  redis_delete (key ∷ keys) r = redis.delete_tokens (key ∷ keys) r

  unfoldable pub redis_revoke_device : ℕ → ℕ → R → R
  unfolding redis_delete
  redis_revoke_device device_id now r =
      redis.delete_set device_id (redis_delete (redis.smembers device_id now r) r)

module _ {R : Type 0} (redis : Redis R) (sha256 : Text → ℕ) where
  -- The pipeline is one transaction.
  unfoldable pub redis_issue : ℕ → Text → ℕ → ℕ → ℕ → R → R
  redis_issue ttl token user_id device_id now r =
      let key = sha256 token in
      let x : SessionData = record { user_id = user_id; device_id = device_id } in
      redis.expire device_id ttl now (redis.sadd device_id key now (redis.set_ex key x ttl now r))

  unfoldable pub redis_resolve : Text → ℕ → R → Option SessionData × R
  redis_resolve token now r = (redis.get (sha256 token) now r, r)

  unfoldable pub redis_revoke : Text → ℕ → R → R
  unfolding redis_discard
  redis_revoke token now r =
      let key = sha256 token in
      redis.delete_tokens (key ∷ []) (redis_discard redis key (redis.get key now r) r)

  -- RedisSessionStore as a session store.
  unfoldable pub redis_store : ℕ → StoreApi R
  unfolding redis_issue redis_resolve redis_revoke redis_revoke_device
  redis_store ttl = record {
    issue_at = λ token u d now r. redis_issue ttl token u d now r;
    resolve_at = λ token now r. redis_resolve token now r;
    revoke_at = λ token now r. redis_revoke token now r;
    revoke_device_at = λ d now r. redis_revoke_device redis d now r;
  }
