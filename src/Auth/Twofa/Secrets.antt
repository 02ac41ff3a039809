-- ===== src/Auth/Twofa/Secrets.antt =====
-- What a pending secret is good for: it can be taken once, until it expires, whatever the sweeper
-- does.
use secure_messenger.Prelude.{
  ◌==◌, if◌then◌else◌, Bool-cases, find, count, delete_where, count-delete_where_le, Text, ℕ, ◌≤◌,
  ◌≡◌, refl, ap, ◌∙◌, inl, inr, Bool, true, false, Option, none, some, List, [], ◌∷◌, arith,
}
use secure_messenger.Auth.Twofa.{
  PendingEntry, Pending2faStore, is_pending_of, is_expired, put, live_secret, peek, take_secret,
  sweep,
}

-- A call of the store, or a round of the sweeper.
pub data PendingCall : Type 0 where
  put_call : ℕ → Text → PendingCall
  take_call : ℕ → PendingCall
  peek_call : ℕ → PendingCall
  sweep_call : PendingCall

-- The answer, nothing but for `take` and `peek`, and the store after the call.
unfoldable pub pending_call : PendingCall → ℕ → Pending2faStore → Option Text × Pending2faStore
unfolding put take_secret peek sweep
pending_call (put_call u secret) now s = (none, put u secret now s)
pending_call (take_call u) now s = take_secret u now s
pending_call (peek_call u) now s = (peek u now s, s)
pending_call sweep_call now s = (none, sweep now s)

unfoldable pub pending_answers : List (PendingCall × ℕ) → Pending2faStore → List (Option Text)
unfolding pending_call
pending_answers [] s = []
pending_answers ((call, now) ∷ calls) s =
    let (r, after) = pending_call call now s in r ∷ pending_answers calls after

-- The abstract store: the last secret of each user that was not taken. It is never swept.
abbrev pub Secrets : Type 0
Secrets = ℕ → Option PendingEntry

abbrev pub no_secrets : Secrets
no_secrets u = none

unfoldable pub secret_call : ℕ → PendingCall → ℕ → Secrets → Option Text × Secrets
unfolding live_secret
secret_call ttl (put_call u secret) now p = (
  none,
  λ v. if u == v then some (record { user_id = u; secret = secret; created_at = now }) else p v,
)
secret_call ttl (take_call u) now p = (live_secret ttl now (p u), λ v. if u == v then none else p v)
secret_call ttl (peek_call u) now p = (live_secret ttl now (p u), p)
secret_call ttl sweep_call now p = (none, p)

unfoldable pub secret_answers : ℕ → List (PendingCall × ℕ) → Secrets → List (Option Text)
unfolding secret_call
secret_answers ttl [] p = []
secret_answers ttl ((call, now) ∷ calls) p =
    let (r, after) = secret_call ttl call now p in r ∷ secret_answers ttl calls after

-- The clock does not run backwards.
abbrev pub IsOrdered : ℕ → List (PendingCall × ℕ) → Type 0
IsOrdered now [] = Unit
IsOrdered now ((call, later) ∷ calls) = (now ≤ later) × IsOrdered later calls

-- One entry for each user, and each with the secret that is good from now on.
record Follows (ttl now : ℕ) (s : Pending2faStore) (p : Secrets) : Type 0 where
  ttl_kept : s.ttl ≡ ttl
  one_entry : (u : ℕ) → count (is_pending_of u) s.entries ≤ 1
  same_secret :
      (u t : ℕ)
      → now ≤ t
      → live_secret ttl t (find (is_pending_of u) s.entries) ≡ live_secret ttl t (p u)

find-delete_other :
    (u v : ℕ) (es : List PendingEntry)
    → find (is_pending_of v) (delete_where (is_pending_of u) es)
      ≡ (if u == v then none else find (is_pending_of v) es)
find-delete_other u v [] = ground arith
find-delete_other u v (e ∷ es) = ground (arith, find-delete_other u v es)

count-delete_other :
    (u v : ℕ) (es : List PendingEntry)
    → count (is_pending_of v) (delete_where (is_pending_of u) es)
      ≡ (if u == v then 0 else count (is_pending_of v) es)
count-delete_other u v [] = ground arith
count-delete_other u v (e ∷ es) = ground (arith, count-delete_other u v es)

live-if :
    (ttl t : ℕ) (b : Bool) (o p q : Option PendingEntry)
    → live_secret ttl t p ≡ live_secret ttl t q
    → live_secret ttl t (if b then o else p) ≡ live_secret ttl t (if b then o else q)
live-if ttl t true o p q h = refl
live-if ttl t false o p q h = h

find-swept_none :
    (ttl now u : ℕ) (es : List PendingEntry)
    → count (is_pending_of u) es ≡ 0
    → find (is_pending_of u) (delete_where (is_expired ttl now) es) ≡ none
find-swept_none ttl now u [] h = refl
find-swept_none ttl now u (e ∷ es) h = ground (arith, h, find-swept_none ttl now u es)

-- Only expired entries are swept.
live-sweep :
    (ttl now t u : ℕ) (es : List PendingEntry)
    → now ≤ t
    → count (is_pending_of u) es ≤ 1
    → live_secret ttl t (find (is_pending_of u) (delete_where (is_expired ttl now) es))
      ≡ live_secret ttl t (find (is_pending_of u) es)
unfolding live_secret
live-sweep ttl now t u [] le one = refl
live-sweep ttl now t u (e ∷ es) le one =
    ground (arith, le, one, find-swept_none ttl now u es, live-sweep ttl now t u es le)

put-Follows :
    (ttl now u : ℕ) (secret : Text) (s : Pending2faStore) (p : Secrets)
    → Follows ttl now s p
    → Follows ttl now (put u secret now s) (secret_call ttl (put_call u secret) now p).1
unfolding put secret_call
put-Follows ttl now u secret s p f = record {
  ttl_kept = f.ttl_kept;
  one_entry = λ v. ground (arith, count-delete_other u v s.entries, f.one_entry v);
  same_secret = λ v t le. elim (Bool-cases (u == v)) [
    | inl same ↦ rw same refl
    | inr other ↦ rw other (rw (find-delete_other u v s.entries) (rw other (f.same_secret v t le)))
  ];
}

take-Follows :
    (ttl now u : ℕ) (s : Pending2faStore) (p : Secrets)
    → Follows ttl now s p
    → Follows ttl now (take_secret u now s).1 (secret_call ttl (take_call u) now p).1
unfolding take_secret secret_call
take-Follows ttl now u s p f = record {
  ttl_kept = f.ttl_kept;
  one_entry = λ v. ground (arith, count-delete_other u v s.entries, f.one_entry v);
  same_secret = λ v t le.
      rw (find-delete_other u v s.entries) (
        live-if ttl t (u == v) none (find (is_pending_of v) s.entries) (p v)
          (f.same_secret v t le));
}

sweep-Follows :
    (ttl now : ℕ) (s : Pending2faStore) (p : Secrets)
    → Follows ttl now s p
    → Follows ttl now (sweep now s) p
unfolding sweep
sweep-Follows ttl now s p f = record {
  ttl_kept = f.ttl_kept;
  one_entry = λ u. omega (
    arith,
    count-delete_where_le (is_expired s.ttl now) (is_pending_of u) s.entries,
    f.one_entry u,
  );
  same_secret = λ u t le.
      rw f.ttl_kept (live-sweep ttl now t u s.entries le (f.one_entry u) ∙ f.same_secret u t le);
}

pending_call-Follows :
    (ttl now : ℕ) (call : PendingCall) (s : Pending2faStore) (p : Secrets)
    → Follows ttl now s p
    → Follows ttl now (pending_call call now s).1 (secret_call ttl call now p).1
unfolding pending_call
pending_call-Follows ttl now (put_call u secret) s p f = put-Follows ttl now u secret s p f
pending_call-Follows ttl now (take_call u) s p f = take-Follows ttl now u s p f
pending_call-Follows ttl now (peek_call u) s p f = unfold secret_call in f
pending_call-Follows ttl now sweep_call s p f = unfold secret_call in sweep-Follows ttl now s p f

pending_call-answers :
    (ttl now : ℕ) (call : PendingCall) (s : Pending2faStore) (p : Secrets)
    → Follows ttl now s p
    → (pending_call call now s).0 ≡ (secret_call ttl call now p).0
unfolding pending_call secret_call take_secret peek
pending_call-answers ttl now (put_call u secret) s p f = refl
pending_call-answers ttl now (take_call u) s p f = rw f.ttl_kept (f.same_secret u now (omega arith))
pending_call-answers ttl now (peek_call u) s p f = rw f.ttl_kept (f.same_secret u now (omega arith))
pending_call-answers ttl now sweep_call s p f = refl

answers-Follows :
    (ttl now : ℕ) (calls : List (PendingCall × ℕ)) (s : Pending2faStore) (p : Secrets)
    → Follows ttl now s p
    → IsOrdered now calls
    → pending_answers calls s ≡ secret_answers ttl calls p
unfolding pending_answers secret_answers
answers-Follows ttl now [] s p f o = refl
answers-Follows ttl now ((call, later) ∷ calls) s p f (le, o) =
    let f' : Follows ttl later s p = record {
      ttl_kept = f.ttl_kept;
      one_entry = f.one_entry;
      same_secret = λ u t h. f.same_secret u t (omega (arith, le, h));
    } in
    rw (pending_call-answers ttl later call s p f') (
      ap (λ rest. (secret_call ttl call later p).0 ∷ rest)
        (answers-Follows ttl later calls _ _ (pending_call-Follows ttl later call s p f') o))

-- A store of pending secrets, empty at first, answers every sequence of calls and sweeps, if time
-- does not run backwards, as the abstract store does: `take` and `peek` give the last secret that
-- was put, if it has not expired and was not taken since, whenever the sweeper ran.
pub pending_answers-secret_answers :
    (ttl now : ℕ) (calls : List (PendingCall × ℕ))
    → IsOrdered now calls
    → pending_answers calls (record { ttl = ttl; entries = [] })
      ≡ secret_answers ttl calls no_secrets
pending_answers-secret_answers ttl now calls ordered =
    answers-Follows ttl now calls (record { ttl = ttl; entries = [] }) no_secrets
      (record { ttl_kept = refl; one_entry = λ u. omega arith; same_secret = λ u t le. refl })
      ordered
