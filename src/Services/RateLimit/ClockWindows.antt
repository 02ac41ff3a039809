-- ===== src/Services/RateLimit/ClockWindows.antt =====
-- How many calls of one key pass in a window of the clock, with Redis.
use mathlib.Core.Path.{subst}
use native.Mathlib.Nat.{div-add-mod, mod-lt}
use Prim.Native.Nat.{◌*◌}
use secure_messenger.Services.RateLimit.Windows.{Check}
use secure_messenger.Prelude.{
  ◌==◌, Bool-cases, ℕ, suc, ◌+◌, ◌-◌, ◌*◌, ◌/◌, ◌%◌, ◌≤◌, ◌<◌, ◌≡◌, refl, inl, inr, true, false,
  ◌&&◌, Option, List, [], ◌∷◌, arith,
}
use secure_messenger.Services.RateLimit.RedisCounters.{
  same_rate, RedisCounters, CounterLaws, redis_maximum, rate_key, redis_check, redis_passes,
  IsInOrder,
}

-- Two times in one window are less than its length apart.
same_window : (w now t n : ℕ) → 0 < w → now / w ≡ n → t / w ≡ n → t < now + w
same_window w now t n pos e f =
    let a : w * n + now % w ≡ now = subst (λ q. w * q + now % w ≡ now) e (div-add-mod now w) in
    let b : w * n + t % w ≡ t = subst (λ q. w * q + t % w ≡ t) f (div-add-mod t w) in
    below (w * n) (now % w) (t % w) a b (mod-lt t pos)
  where
    below : (p x y : ℕ) → p + x ≡ now → p + y ≡ t → y < w → t < now + w
    below p x y a b h = omega (arith, a, b, h)

module _ {R : Type 0} (redis : RedisCounters R) (laws : CounterLaws redis) (default w : ℕ)
    (pos : 0 < w) where
  -- From now on to the end of window `n`, at least `c` calls of the key are counted.
  HasCounted : ℕ → ℕ → ℕ → ℕ → R → Type 0
  HasCounted key n c now r =
      (t : ℕ) → now ≤ t → t / w ≡ n → c ≤ redis.value (record { key = key; window = n }) t r

  counted_own :
      (key c now : ℕ) (limit : Option ℕ) (r : R)
      → HasCounted key (now / w) c now r
      → HasCounted key (now / w) (suc c) now (redis_check redis default w key limit now r).1
  unfolding HasCounted redis_check
  counted_own key c now limit r h t le e =
      let k = rate_key redis default w key now in
      rw (laws.value-expire k (w + 1) now t (redis.incr k now r).1 le) (
        rw (laws.value-incr k now r)
          (ground (arith, same_window w now t (now / w) pos refl e, h now (omega arith) refl)))

  counted_other :
      (key other n c now : ℕ) (limit : Option ℕ) (r : R)
      → same_rate (rate_key redis default w other now) (record { key = key; window = n }) ≡ false
      → HasCounted key n c now r
      → HasCounted key n c now (redis_check redis default w other limit now r).1
  unfolding HasCounted redis_check
  counted_other key other n c now limit r apart h t le e =
      let k = rate_key redis default w other now in
      rw (laws.value-expire_other k _ (w + 1) now t (redis.incr k now r).1 apart)
        (rw (laws.value-incr_other k _ now t r apart) (h t le e))

  -- The answer to a call: with a count above the maximum it is refused.
  passed-count :
      (key c now : ℕ) (limit : Option ℕ) (r : R)
      → HasCounted key (now / w) c now r
      → (redis_check redis default w key limit now r).0 ≡ true
      → suc c ≤ redis_maximum limit default
  unfolding HasCounted redis_check
  passed-count key c now limit r h passed =
      let k = rate_key redis default w key now in
      ground (arith, passed, laws.incr-count k now r, h now (omega arith) refl)

  -- The same two facts for a call that has the key and the window.
  counted_here :
      (key other n c now : ℕ) (limit : Option ℕ) (r : R)
      → other ≡ key
      → now / w ≡ n
      → HasCounted key n c now r
      → HasCounted key n (suc c) now (redis_check redis default w other limit now r).1
  counted_here key other n c now limit r same here =
      let after = (redis_check redis default w other limit now r).1 in
      subst (λ k. HasCounted k n c now r → HasCounted k n (suc c) now after) same
        (subst (λ m. HasCounted other m c now r → HasCounted other m (suc c) now after) here
          (counted_own other c now limit r))

  passed_here :
      (key other n c now : ℕ) (limit_of : ℕ → Option ℕ) (r : R)
      → other ≡ key
      → now / w ≡ n
      → HasCounted key n c now r
      → (redis_check redis default w other (limit_of other) now r).0 ≡ true
      → suc c ≤ redis_maximum (limit_of key) default
  passed_here key other n c now limit_of r same here h passed =
      subst (λ k. HasCounted k n c now r → suc c ≤ redis_maximum (limit_of k) default) same
        (subst (λ m. HasCounted other m c now r → suc c ≤ redis_maximum (limit_of other) default)
          here (λ own. passed-count other c now (limit_of other) r own passed))
        h

  still_counted :
      (key n c now t : ℕ) (r : R) → now ≤ t → HasCounted key n c now r → HasCounted key n c t r
  unfolding HasCounted
  still_counted key n c now t r le h u le' e = h u (omega (arith, le, le')) e

  -- Calls in the window of the key and the others, by what is counted.
  counted_passes :
      (key n : ℕ) (limit_of : ℕ → Option ℕ) (cs : List Check) (c now : ℕ) (r : R)
      → IsInOrder now cs
      → HasCounted key n c now r
      → redis_passes redis default w key n limit_of cs r ≤ redis_maximum (limit_of key) default - c
  unfolding redis_passes
  counted_passes key n limit_of [] c now r o h = omega arith
  counted_passes key n limit_of (x ∷ cs) c now r (le, o) h =
      let check = redis_check redis default w x.key (limit_of x.key) x.now r in
      let h' = still_counted key n c now x.now r le h in
      elim (Bool-cases (x.key == key && x.now / w == n)) [
        | inl own ↦
            let k : x.key ≡ key = ground (arith, own) in
            let m : x.now / w ≡ n = ground (arith, own) in
            let rest =
              counted_passes key n limit_of cs (suc c) x.now check.1 o
                (counted_here key x.key n c x.now (limit_of x.key) r k m h') in
            elim (Bool-cases check.0) [
              | inl passed ↦ ground (
                arith,
                own,
                passed,
                rest,
                passed_here key x.key n c x.now limit_of r k m h' passed,
              )
              | inr refused ↦ ground (arith, own, refused, rest)
            ]
        | inr apart ↦ ground (
          arith,
          apart,
          counted_passes key n limit_of cs c x.now check.1 o
              (counted_other key x.key n c x.now (limit_of x.key) r apart h'),
        )
      ]

  -- Whatever the server holds at first, of the calls with one key in one window of the clock at
  -- most the maximum pass, among any calls in the order of the clock.
  pub redis_passes-le-maximum :
      (key n now : ℕ) (limit_of : ℕ → Option ℕ) (cs : List Check) (r : R)
      → IsInOrder now cs
      → redis_passes redis default w key n limit_of cs r ≤ redis_maximum (limit_of key) default
  unfolding HasCounted
  redis_passes-le-maximum key n now limit_of cs r o =
      let passed = counted_passes key n limit_of cs 0 now r o (λ t le e. omega arith) in
      omega (arith, passed)
