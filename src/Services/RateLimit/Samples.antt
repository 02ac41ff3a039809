-- ===== src/Services/RateLimit/Samples.antt =====
-- The counters of a small Redis for tests, as functions of their keys. They keep the laws.
use secure_messenger.Prelude.{
  leb, if◌then◌else◌, Bool-cases, ℕ, suc, ◌+◌, ◌≡◌, refl, inl, inr, Bool, true, false, Option, none,
  some, arith,
}
use secure_messenger.Services.RateLimit.RedisCounters.{
  RateKey, same_rate, RedisCounters, CounterLaws,
}

pub record MiniCounters : Type 0 where
  pub counts : RateKey → ℕ
  pub ends : RateKey → Option ℕ

abbrev pub empty_counters : MiniCounters
empty_counters = record { counts = λ _. 0; ends = λ _. none }

abbrev is_over : ℕ → Option ℕ → Bool
is_over t none = false
is_over t (some end) = leb end t

abbrev count_at : RateKey → ℕ → MiniCounters → ℕ
count_at k t r = if is_over t (r.ends k) then 0 else r.counts k

abbrev pub mini_counters : RedisCounters MiniCounters
mini_counters = record {
  value = count_at;
  incr = λ k now r. (
    suc (count_at k now r),
    record {
      counts = λ e. if same_rate k e then suc (count_at k now r) else r.counts e;
      ends = λ e.
          if same_rate k e then (if is_over now (r.ends k) then none else r.ends k) else r.ends e;
    },
  );
  expire = λ k ttl now r. record {
    counts = λ e. if same_rate k e then count_at k now r else r.counts e;
    ends = λ e. if same_rate k e then some (now + ttl) else r.ends e;
  };
}

same_rate_refl : (k : RateKey) → same_rate k k ≡ true
same_rate_refl k = ground arith

not_over : (now : ℕ) (o : Option ℕ) → is_over now (if is_over now o then none else o) ≡ false
not_over now none = refl
not_over now (some end) = elim (Bool-cases (leb end now)) [ inl h ↦ rw h refl | inr h ↦ rw h h ]

pub mini_counters-CounterLaws : CounterLaws mini_counters
mini_counters-CounterLaws = record {
  incr-count = λ k now r. refl;
  value-incr = λ k now r. rw (same_rate_refl k) (rw (not_over now (r.ends k)) refl);
  value-incr_other = λ k other now t r apart. rw apart refl;
  value-expire = λ k ttl now t r le. rw (same_rate_refl k) refl;
  value-expire_other = λ k other ttl now t r apart. rw apart refl;
}
