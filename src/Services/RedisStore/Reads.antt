-- ===== src/Services/RedisStore/Reads.antt =====
-- What is read from Redis after each operation of RedisSessionStore.
use secure_messenger.Prelude.{
  leb, ◌==◌, if◌then◌else◌, Bool-cases, Text, ℕ, ◌+◌, ◌≤◌, ◌<◌, ◌≡◌, refl, ap, ◌∙◌, inl, inr, Bool,
  true, false, ◌&&◌, ◌||◌, not, Option, none, some, List, [], ◌∷◌, arith,
}
use secure_messenger.Services.SessionStore.{SessionData}
use secure_messenger.Services.RedisStore.{
  contains, Redis, RedisLaws, redis_discard, redis_delete, redis_revoke_device, redis_issue,
  redis_revoke,
}

contains-if :
    (key : ℕ) (b : Bool) (xs ys : List ℕ)
    → contains key (if b then xs else ys) ≡ (if b then contains key xs else contains key ys)
contains-if key true xs ys = refl
contains-if key false xs ys = refl

module _ {R : Type 0} (redis : Redis R) (laws : RedisLaws redis) where
  module _ (sha256 : Text → ℕ) (ttl now : ℕ) (token : Text) where
    pub get-redis_issue :
        (u d key t : ℕ) (r : R)
        → 0 < ttl
        → now ≤ t
        → redis.get key t (redis_issue redis sha256 ttl token u d now r) ≡ (
            if sha256 token == key
            then (if leb (now + ttl) t then none else some (record { user_id = u; device_id = d }))
            else redis.get key t r)
    unfolding redis_issue
    get-redis_issue u d key t r pos le =
        laws.get-expire d ttl key now t _
        ∙ laws.get-sadd d (sha256 token) key now t _
        ∙ laws.get-set_ex (sha256 token) key _ ttl now t r pos le

    pub contains-redis_issue :
        (u d key other t : ℕ) (r : R)
        → now ≤ t
        → contains key (redis.smembers other t (redis_issue redis sha256 ttl token u d now r)) ≡ (
            if d == other
            then (if leb (now + ttl) t
                then false
                else ((sha256 token == key) || contains key (redis.smembers d now r)))
            else contains key (redis.smembers other t r))
    unfolding redis_issue
    contains-redis_issue u d key other t r le =
        let x : SessionData = record { user_id = u; device_id = d } in
        let r1 = redis.set_ex (sha256 token) x ttl now r in
        let r2 = redis.sadd d (sha256 token) now r1 in
        rw (laws.smembers-expire d other ttl now t r2 le) (elim (Bool-cases (d == other)) [
          | inl same ↦ rw same (
              contains-if key (leb (now + ttl) t) [] (redis.smembers d now r2)
              ∙ ap (λ b. if leb (now + ttl) t then false else b)
                  (laws.contains-sadd d (sha256 token) key now r1
                    ∙ ap (λ xs. (sha256 token == key) || contains key xs)
                        (laws.smembers-set_ex (sha256 token) d x ttl now now r)))
          | inr differs ↦ rw differs (
              ap (contains key) (
                laws.smembers-sadd_other d other (sha256 token) now t r1 differs
                ∙ laws.smembers-set_ex (sha256 token) other x ttl now t r))
        ])

  get-redis_discard :
      (key k t : ℕ) (x : Option SessionData) (r : R)
      → redis.get k t (redis_discard redis key x r) ≡ redis.get k t r
  unfolding redis_discard
  get-redis_discard key k t none r = refl
  get-redis_discard key k t (some x) r = laws.get-srem x.device_id key k t r

  -- Only the key itself leaves a set.
  contains-redis_discard :
      (key k d t : ℕ) (x : Option SessionData) (r : R)
      → (b : Bool) × (contains k (redis.smembers d t (redis_discard redis key x r))
          ≡ (not (b && key == k) && contains k (redis.smembers d t r)))
  unfolding redis_discard
  contains-redis_discard key k d t none r = (false, refl)
  contains-redis_discard key k d t (some x) r =
      (x.device_id == d, laws.contains-srem x.device_id key d k t r)

  pub get-redis_revoke :
      (sha256 : Text → ℕ) (token : Text) (now key t : ℕ) (r : R)
      → redis.get key t (redis_revoke redis sha256 token now r)
        ≡ (if sha256 token == key then none else redis.get key t r)
  unfolding redis_revoke
  get-redis_revoke sha256 token now key t r =
      rw
        (laws.get-delete_tokens (sha256 token ∷ []) key t
          (redis_discard redis (sha256 token) (redis.get (sha256 token) now r) r))
        (rw (get-redis_discard (sha256 token) key t (redis.get (sha256 token) now r) r)
          (ground arith))

  pub contains-redis_revoke :
      (sha256 : Text → ℕ) (token : Text) (now key d t : ℕ) (r : R)
      → (b : Bool) × (contains key (redis.smembers d t (redis_revoke redis sha256 token now r))
          ≡ (not (b && sha256 token == key) && contains key (redis.smembers d t r)))
  unfolding redis_revoke
  contains-redis_revoke sha256 token now key d t r =
      rw
        (laws.smembers-delete_tokens (sha256 token ∷ []) d t
          (redis_discard redis (sha256 token) (redis.get (sha256 token) now r) r))
        (contains-redis_discard (sha256 token) key d t (redis.get (sha256 token) now r) r)

  get-redis_delete :
      (keys : List ℕ) (key t : ℕ) (r : R)
      → redis.get key t (redis_delete redis keys r)
        ≡ (if contains key keys then none else redis.get key t r)
  unfolding redis_delete
  get-redis_delete [] key t r = refl
  get-redis_delete (k ∷ keys) key t r = laws.get-delete_tokens (k ∷ keys) key t r

  smembers-redis_delete :
      (keys : List ℕ) (d t : ℕ) (r : R)
      → redis.smembers d t (redis_delete redis keys r) ≡ redis.smembers d t r
  unfolding redis_delete
  smembers-redis_delete [] d t r = refl
  smembers-redis_delete (k ∷ keys) d t r = laws.smembers-delete_tokens (k ∷ keys) d t r

  pub get-redis_revoke_device :
      (d now key t : ℕ) (r : R)
      → redis.get key t (redis_revoke_device redis d now r)
        ≡ (if contains key (redis.smembers d now r) then none else redis.get key t r)
  unfolding redis_revoke_device
  get-redis_revoke_device d now key t r =
      laws.get-delete_set d key t _ ∙ get-redis_delete (redis.smembers d now r) key t r

  smembers-redis_revoke_device :
      (d now other t : ℕ) (r : R)
      → redis.smembers other t (redis_revoke_device redis d now r)
        ≡ (if d == other then [] else redis.smembers other t r)
  unfolding redis_revoke_device
  smembers-redis_revoke_device d now other t r =
      laws.smembers-delete_set d other t _
      ∙ ap (λ xs. if d == other then [] else xs)
          (smembers-redis_delete (redis.smembers d now r) other t r)

  pub contains-redis_revoke_device :
      (d now key other t : ℕ) (r : R)
      → contains key (redis.smembers other t (redis_revoke_device redis d now r))
        ≡ (if d == other then false else contains key (redis.smembers other t r))
  contains-redis_revoke_device d now key other t r =
      ap (contains key) (smembers-redis_revoke_device d now other t r)
      ∙ contains-if key (d == other) [] (redis.smembers other t r)
