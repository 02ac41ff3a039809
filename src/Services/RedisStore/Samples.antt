-- ===== src/Services/RedisStore/Samples.antt =====
-- A small Redis for tests: the strings and the sets as functions of their keys. It keeps the laws.
use secure_messenger.Prelude.{
  leb, ◌==◌, if◌then◌else◌, Bool-cases, filter, ℕ, ◌+◌, ◌≡◌, refl, inl, inr, Bool, true, false,
  ◌&&◌, not, Option, none, some, List, [], ◌∷◌, arith,
}
use secure_messenger.Services.SessionStore.{TokenEntry}
use secure_messenger.Services.SessionStore.Items.{grant_of}
use secure_messenger.Services.SessionStore.Tokens.{answer}
use secure_messenger.Services.RedisStore.{contains, Redis, RedisLaws}

pub record MiniRedis : Type 0 where
  pub strings : ℕ → Option TokenEntry
  pub members : ℕ → List ℕ
  pub ends : ℕ → Option ℕ

abbrev pub empty_redis : MiniRedis
empty_redis = record { strings = λ _. none; members = λ _. []; ends = λ _. none }

abbrev is_over : ℕ → Option ℕ → Bool
is_over t none = false
is_over t (some end) = leb end t

abbrev members_at : ℕ → ℕ → MiniRedis → List ℕ
members_at d t r = if is_over t (r.ends d) then [] else r.members d

abbrev still_ends : ℕ → Option ℕ → Option ℕ
still_ends t o = if is_over t o then none else o

abbrev pub mini : Redis MiniRedis
mini = record {
  get = λ key t r. answer t (r.strings key);
  smembers = λ d t r. members_at d t r;
  set_ex = λ key x ttl now r. record r {
    strings = λ k.
        if key == k then some (grant_of key x.user_id x.device_id (now + ttl)) else r.strings k;
  };
  sadd = λ d key now r. record r {
    members = λ e. if d == e then key ∷ members_at d now r else r.members e;
    ends = λ e. if d == e then still_ends now (r.ends d) else r.ends e;
  };
  expire = λ d ttl now r. record r {
    members = λ e. if d == e then members_at d now r else r.members e;
    ends = λ e. if d == e then some (now + ttl) else r.ends e;
  };
  srem = λ d key r. record r {
    members = λ e. if d == e then filter (λ k. not (k == key)) (r.members e) else r.members e;
  };
  delete_tokens =
      λ keys r. record r { strings = λ k. if contains k keys then none else r.strings k };
  delete_set = λ d r. record r { members = λ e. if d == e then [] else r.members e };
}

answer-if_none :
    (t : ℕ) (b : Bool) (o : Option TokenEntry)
    → answer t (if b then none else o) ≡ (if b then none else answer t o)
answer-if_none t true o = refl
answer-if_none t false o = refl

not_over : (now : ℕ) (o : Option ℕ) → is_over now (still_ends now o) ≡ false
not_over now none = refl
not_over now (some end) = ground arith

contains-filter :
    (key k : ℕ) (ks : List ℕ)
    → contains k (filter (λ j. not (j == key)) ks) ≡ (not (key == k) && contains k ks)
contains-filter key k [] = ground arith
contains-filter key k (j ∷ ks) = ground (arith, contains-filter key k ks)

same : (d : ℕ) → (d == d) ≡ true
same d = ground arith

answer-if_grant :
    (t : ℕ) (b : Bool) (e : TokenEntry) (o : Option TokenEntry)
    → answer t (if b then some e else o)
      ≡ (if b then (if leb e.expires_at t then none else some e.session) else answer t o)
answer-if_grant t true e o = refl
answer-if_grant t false e o = refl

contains-srem_at :
    (key k : ℕ) (over b : Bool) (ks : List ℕ)
    → contains k (if over then [] else if b then filter (λ j. not (j == key)) ks else ks)
      ≡ (not (b && key == k) && contains k (if over then [] else ks))
contains-srem_at key k true b ks = ground arith
contains-srem_at key k false true ks = contains-filter key k ks
contains-srem_at key k false false ks = refl

delete_at :
    (over b : Bool) (ks : List ℕ)
    → ◌≡◌ {A = List ℕ}
        (if over then [] else if b then [] else ks)
        (if b then [] else if over then [] else ks)
delete_at true true ks = refl
delete_at true false ks = refl
delete_at false true ks = refl
delete_at false false ks = refl

pub mini-RedisLaws : RedisLaws mini
mini-RedisLaws = record {
  get-set_ex = λ key k x ttl now t r pos le.
      answer-if_grant t (key == k) (grant_of key x.user_id x.device_id (now + ttl)) (r.strings k);
  smembers-set_ex = λ key d x ttl now t r. refl;
  get-sadd = λ d key k now t r. refl;
  contains-sadd = λ d key k now r. rw (same d) (rw (not_over now (r.ends d)) refl);
  smembers-sadd_other = λ d other key now t r h. rw h refl;
  get-expire = λ d ttl k now t r. refl;
  smembers-expire = λ d other ttl now t r le. elim (Bool-cases (d == other)) [
    | inl this ↦ rw this refl
    | inr differs ↦ rw differs refl
  ];
  get-srem = λ d key k t r. refl;
  contains-srem = λ d key other k t r.
      contains-srem_at key k (is_over t (r.ends other)) (d == other) (r.members other);
  get-delete_tokens = λ keys k t r. answer-if_none t (contains k keys) (r.strings k);
  smembers-delete_tokens = λ keys d t r. refl;
  get-delete_set = λ d k t r. refl;
  smembers-delete_set =
      λ d other t r. delete_at (is_over t (r.ends other)) (d == other) (r.members other);
}
