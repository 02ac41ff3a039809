-- ===== src/Services/RateLimit/RedisCounters.antt =====
-- app/services/rate_limit.py: RateLimiter with Redis, which counts the calls of a key in windows of
-- the clock. INCR and EXPIRE are the operations of an interface, with what the Redis manual says of
-- them; the transaction makes a call of `check` one step. Time is time.time() in
-- seconds, and the server's clock is the same.
use secure_messenger.Prelude.{
  leb, ◌==◌, if◌then◌else◌, count, ℕ, zero, suc, ◌+◌, ◌/◌, ◌≤◌, ◌≡◌, Bool, false, ◌&&◌, Option,
  none, some, List, [], ◌∷◌,
}
use secure_messenger.Services.RateLimit.Windows.{Check}

-- f"rate:{key}:{window}", where the window is a number.
pub record RateKey : Type 0 where
  pub key : ℕ
  pub window : ℕ

abbrev pub same_rate : RateKey → RateKey → Bool
same_rate a b = a.key == b.key && a.window == b.window

-- `value` is what a key holds at a time, 0 where it is missing.
pub record RedisCounters (R : Type 0) : Type 0 where
  pub value : RateKey → ℕ → R → ℕ
  pub incr : RateKey → ℕ → R → ℕ × R
  pub expire : RateKey → ℕ → ℕ → R → R

pub record CounterLaws {R : Type 0} (redis : RedisCounters R) : Type 0 where
  pub incr-count :
      (k : RateKey) (now : ℕ) (r : R) → (redis.incr k now r).0 ≡ suc (redis.value k now r)
  pub value-incr :
      (k : RateKey) (now : ℕ) (r : R)
      → redis.value k now (redis.incr k now r).1 ≡ suc (redis.value k now r)
  pub value-incr_other :
      (k other : RateKey) (now t : ℕ) (r : R)
      → same_rate k other ≡ false
      → redis.value other t (redis.incr k now r).1 ≡ redis.value other t r
  pub value-expire :
      (k : RateKey) (ttl now t : ℕ) (r : R)
      → now ≤ t
      → redis.value k t (redis.expire k ttl now r)
        ≡ (if leb (now + ttl) t then 0 else redis.value k now r)
  pub value-expire_other :
      (k other : RateKey) (ttl now t : ℕ) (r : R)
      → same_rate k other ≡ false
      → redis.value other t (redis.expire k ttl now r) ≡ redis.value other t r

-- `limit or self.limit`
abbrev pub redis_maximum : Option ℕ → ℕ → ℕ
redis_maximum none default = default
redis_maximum (some zero) default = default
redis_maximum (some (suc n)) default = suc n

module _ {R : Type 0} (redis : RedisCounters R) (default window_seconds : ℕ) where
  abbrev pub rate_key : ℕ → ℕ → RateKey
  rate_key key now = record { key = key; window = now / window_seconds }

  -- Whether the call passes, and the server after it.
  unfoldable pub redis_check : ℕ → Option ℕ → ℕ → R → Bool × R
  redis_check key limit now r =
      let k = rate_key key now in
      let (count, counted) = redis.incr k now r in
      (leb count (redis_maximum limit default), redis.expire k (window_seconds + 1) now counted)

  -- The calls with the key `key` in the window `n` that pass, of calls in sequence.
  unfoldable pub redis_passes : ℕ → ℕ → (ℕ → Option ℕ) → List Check → R → ℕ
  unfolding redis_check
  redis_passes key n limit_of [] r = 0
  redis_passes key n limit_of (c ∷ cs) r =
      let (passed, after) = redis_check c.key (limit_of c.key) c.now r in
      let later = redis_passes key n limit_of cs after in
      if c.key == key && c.now / window_seconds == n && passed then suc later else later

-- The clock does not run backwards.
abbrev pub IsInOrder : ℕ → List Check → Type 0
IsInOrder now [] = Unit
IsInOrder now (c ∷ cs) = (now ≤ c.now) × IsInOrder c.now cs
