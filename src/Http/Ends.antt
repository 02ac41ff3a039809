-- ===== src/Http/Ends.antt =====
-- How a request ends: rules that follow a handler from statement to statement.
use mathlib.Core.Path.{subst}
use secure_messenger.Prelude.{
  some_inj, ℕ, ◌≡◌, refl, sym, ◌∙◌, Bool, true, false, Option, none, some, arith,
}
use secure_messenger.Model.{Db}
use secure_messenger.Http.{
  Error, status, Result, ok, err, Session, Action, pure, raise, gets, query, or_raise, branch,
  raise_if, modify, commit, rollback, interleave, continue, ◌>>=◌, handle,
}

-- The action `m`, run from `s`, ends with a result and a session that satisfy `Q`.
pub record Ends {A : Type 0} (m : Action A) (s : Session) (Q : Result A → Session → Type 0)
    : Type 0 where
  pub at : Q (m s).0 (m s).1

module _ {A B : Type 0} {s : Session} {Q : Result B → Session → Type 0} (k : A → Action B) where
  pub Ends-pure : (a : A) → Ends (k a) s Q → Ends (pure a >>= k) s Q
  unfolding ◌>>=◌
  Ends-pure a h = record { at = h.at }

  pub Ends-gets : (f : Db → A) → Ends (k (f s.working)) s Q → Ends (gets f >>= k) s Q
  unfolding ◌>>=◌
  Ends-gets f h = record { at = h.at }

  -- The rest after a result.
  after_result :
      (r : Result A)
      → ((e : Error) → r ≡ err e → Q (err e) s)
      → ((a : A) → r ≡ ok a → Ends (k a) s Q)
      → Q (continue r k s).0 (continue r k s).1
  unfolding continue
  after_result (err e) failed went = failed e refl
  after_result (ok a) failed went = (went a refl).at

  pub Ends-query :
      (f : Db → Result A)
      → ((e : Error) → f s.working ≡ err e → Q (err e) s)
      → ((a : A) → f s.working ≡ ok a → Ends (k a) s Q)
      → Ends (query f >>= k) s Q
  unfolding ◌>>=◌
  Ends-query f failed went = record { at = after_result (f s.working) failed went }

  pub Ends-or_raise :
      (o : Option A) (e : ℕ)
      → (o ≡ none → Q (err (status e)) s)
      → ((a : A) → o ≡ some a → Ends (k a) s Q)
      → Ends (or_raise o e >>= k) s Q
  unfolding ◌>>=◌
  Ends-or_raise none e missing found = record { at = missing refl }
  Ends-or_raise (some a) e missing found = record { at = (found a refl).at }

-- What the first of two actions has to leave for the second, `k`, to end as `Q` says.
abbrev pub After :
    {A B : Type 0} (k : A → Action B) (Q : Result B → Session → Type 0)
    → Result A
    → Session
    → Type 0
After k Q (ok a) t = Ends (k a) t Q
After k Q (err e) t = Q (err e) t

after_bind :
    {A B : Type 0} (Q : Result B → Session → Type 0) (k : A → Action B) (r : Result A) (t : Session)
    → After k Q r t
    → Q (continue r k t).0 (continue r k t).1
unfolding continue
after_bind Q k (err e) t h = h
after_bind Q k (ok a) t h = h.at

module _ {A B : Type 0} {Q : Result B → Session → Type 0} (k : A → Action B) where
  pub Ends-bind : (m : Action A) {s : Session} → Ends m s (After k Q) → Ends (m >>= k) s Q
  unfolding ◌>>=◌
  Ends-bind m {s} first = record { at = after_bind Q k (m s).0 (m s).1 first.at }

module _ {B : Type 0} {s : Session} {Q : Result B → Session → Type 0}
    (k : Unit {0} → Action B) where
  pub Ends-raise_if :
      (b : Bool) (e : ℕ)
      → (b ≡ true → Q (err (status e)) s)
      → (b ≡ false → Ends (k tt) s Q)
      → Ends (raise_if b e >>= k) s Q
  unfolding ◌>>=◌
  Ends-raise_if true e raised passed = record { at = raised refl }
  Ends-raise_if false e raised passed = record { at = (passed refl).at }

  pub Ends-modify :
      (f : Db → Db) → Ends (k tt) (record s { working = f s.working }) Q → Ends (modify f >>= k) s Q
  unfolding ◌>>=◌
  Ends-modify f h = record { at = h.at }

  pub Ends-interleave :
      (f : Db → Db)
      → Ends (k tt) (record { committed = f s.committed; working = f s.working }) Q
      → Ends (interleave f >>= k) s Q
  unfolding ◌>>=◌
  Ends-interleave f h = record { at = h.at }

  pub Ends-commit :
      Ends (k tt) (record { committed = s.working; working = s.working }) Q
      → Ends (commit >>= k) s Q
  unfolding ◌>>=◌
  Ends-commit h = record { at = h.at }

  pub Ends-rollback :
      Ends (k tt) (record { committed = s.committed; working = s.committed }) Q
      → Ends (rollback >>= k) s Q
  unfolding ◌>>=◌
  Ends-rollback h = record { at = h.at }

module _ {s : Session} {Q : Result (Unit {0}) → Session → Type 0} where
  pub Ends-commit_last :
      Q (ok tt) (record { committed = s.working; working = s.working }) → Ends commit s Q
  unfolding ◌>>=◌
  Ends-commit_last h = record { at = h }

  pub Ends-rollback_last :
      Q (ok tt) (record { committed = s.committed; working = s.committed }) → Ends rollback s Q
  unfolding ◌>>=◌
  Ends-rollback_last h = record { at = h }

  pub Ends-modify_last :
      (f : Db → Db) → Q (ok tt) (record s { working = f s.working }) → Ends (modify f) s Q
  unfolding ◌>>=◌
  Ends-modify_last f h = record { at = h }

module _ {s : Session} {Q : Result (Unit {0}) → Session → Type 0} where
  -- A last test, where both outcomes are fine.
  pub Ends-raise_if_last :
      (b : Bool) (e : ℕ) → ((r : Result Unit) → Q r s) → Ends (raise_if b e) s Q
  unfolding ◌>>=◌
  Ends-raise_if_last true e h = record { at = h (err (status e)) }
  Ends-raise_if_last false e h = record { at = h (ok tt) }

  -- A last test, by its outcome.
  pub Ends-raise_if_end :
      (b : Bool) (e : ℕ)
      → (b ≡ true → Q (err (status e)) s)
      → (b ≡ false → Q (ok tt) s)
      → Ends (raise_if b e) s Q
  unfolding ◌>>=◌
  Ends-raise_if_end true e raised passed = record { at = raised refl }
  Ends-raise_if_end false e raised passed = record { at = passed refl }

module _ {A : Type 0} {s : Session} {Q : Result A → Session → Type 0} where
  pub Ends-raise : (e : Error) → Q (err e) s → Ends (raise e) s Q
  unfolding ◌>>=◌
  Ends-raise e h = record { at = h }

  pub Ends-pure_last : (a : A) → Q (ok a) s → Ends (pure a) s Q
  unfolding ◌>>=◌
  Ends-pure_last a h = record { at = h }

  pub Ends-none : (e : ℕ) → Q (err (status e)) s → Ends (or_raise none e) s Q
  unfolding ◌>>=◌
  Ends-none e h = record { at = h }

  pub Ends-gets_last : (f : Db → A) → Q (ok (f s.working)) s → Ends (gets f) s Q
  unfolding ◌>>=◌
  Ends-gets_last f h = record { at = h }

  pub Ends-query_last : (f : Db → Result A) → Q (f s.working) s → Ends (query f) s Q
  unfolding ◌>>=◌
  Ends-query_last f h = record { at = h }

  pub Ends-branch :
      (b : Bool) (m n : Action A)
      → (b ≡ true → Ends m s Q)
      → (b ≡ false → Ends n s Q)
      → Ends (branch b m n) s Q
  unfolding ◌>>=◌
  Ends-branch true m n yes_case no_case = yes_case refl
  Ends-branch false m n yes_case no_case = no_case refl

-- What holds of the result and the committed tables at the end holds of the request.
pub handle_by :
    {A : Type 0} (P : Result A → Db → Type 0) (m : Action A) (db : Db)
    → Ends m (record { committed = db; working = db }) (λ r t. P r t.committed)
    → P (handle m db).0 (handle m db).1
unfolding handle
handle_by P m db h = h.at

pub Ends-weaken :
    {A : Type 0} {m : Action A} {s : Session} {R Q : Result A → Session → Type 0}
    → Ends m s R
    → ((r : Result A) (t : Session) → R r t → Q r t)
    → Ends m s Q
Ends-weaken {m} {s} h go = record { at = go (m s).0 (m s).1 h.at }

-- The committed tables satisfy `P`, and so does the session's own copy where the handler goes on.
abbrev pub Keeps : {A : Type 0} → (Db → Type 0) → Result A → Session → Type 0
Keeps P (ok a) t = P t.committed × P t.working
Keeps P (err e) t = P t.committed

-- The same rules where the outcome of a test or a query is known.
pub Ends-found :
    {A B : Type 0} {s : Session} {Q : Result B → Session → Type 0} (k : A → Action B) (o : Option A)
    (e : ℕ) (a : A)
    → o ≡ some a
    → Ends (k a) s Q
    → Ends (or_raise o e >>= k) s Q
Ends-found {s = s} {Q = Q} k o e a p h =
    Ends-or_raise k o e (λ q. absurd (ground arith))
      λ x q. subst (λ y. Ends (k y) s Q) (some_inj (sym p ∙ q)) h

pub Ends-passed :
    {B : Type 0} {s : Session} {Q : Result B → Session → Type 0} (k : Unit {0} → Action B)
    (b : Bool) (e : ℕ)
    → b ≡ false
    → Ends (k tt) s Q
    → Ends (raise_if b e >>= k) s Q
Ends-passed k b e p h = Ends-raise_if k b e (λ q. absurd (ground arith)) (λ _. h)

pub Ends-queried :
    {A B : Type 0} {s : Session} {Q : Result B → Session → Type 0} (k : A → Action B)
    (f : Db → Result A) (a : A)
    → f s.working ≡ ok a
    → Ends (k a) s Q
    → Ends (query f >>= k) s Q
Ends-queried {s = s} {Q = Q} k f a p h =
    Ends-query k f (λ e q. absurd (cc (p, q)))
      λ x q. subst (λ y. Ends (k y) s Q) (ok_inj (sym p ∙ q)) h
  where
    ok_inj : {A : Type 0} {a b : A} → ok a ≡ ok b → a ≡ b
    ok_inj p = cc p

pub Ends-got :
    {A B : Type 0} {s : Session} {Q : Result B → Session → Type 0} (k : A → Action B) (f : Db → A)
    (a : A)
    → f s.working ≡ a
    → Ends (k a) s Q
    → Ends (gets f >>= k) s Q
Ends-got {s = s} {Q = Q} k f a p h = Ends-gets k f (subst (λ y. Ends (k y) s Q) (sym p) h)

-- A property of the session that the rest keeps too.
pub After-kept :
    {A B : Type 0} (k : A → Action B) (P : Session → Type 0)
    → ((a : A) (t : Session) → P t → Ends (k a) t (λ _ z. P z))
    → (r : Result A) (t : Session) → P t
    → After k (λ _ z. P z) r t
After-kept k P go (ok a) t h = go a t h
After-kept k P go (err e) t h = h
