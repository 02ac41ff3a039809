-- ===== src/E2ee/KeyPackages/Batches.antt =====
-- Claiming a package for each device of a user: POST /e2ee/users/{login}/key-packages/claim.
use mathlib.Core.Path.{subst}
use secure_messenger.Prelude.{
  All, All-mono, Text, ℕ, ◌≡◌, refl, sym, Bool, Option, none, some, List, [], ◌∷◌,
}
use secure_messenger.Model.{Db}
use secure_messenger.Model.Accounts.{Device}
use secure_messenger.Model.Mls.{MlsKeyPackage}
use secure_messenger.Http.{Result, ok, err, Session, Action, pure, commit, ◌>>◌, handle}
use secure_messenger.Http.Ends.{
  Ends, Ends-gets, Ends-or_raise, After, Ends-bind, Ends-raise_if, Ends-modify, Ends-commit,
  Ends-pure_last, handle_by, Ends-weaken,
}
use secure_messenger.E2ee.KeyPackages.{
  next_package, claimed_by, mark_claimed, claim_found, claim_each, claim_key_packages,
}
use secure_messenger.E2ee.KeyPackages.Claims.{
  IsTaken, next_package-not_taken, mark_claimed-IsTaken, mark_claimed_keeps,
}

-- No two packages have one id.
abbrev pub IsDistinct : List MlsKeyPackage → Type 0
IsDistinct [] = Unit
IsDistinct (p ∷ ps) = All (λ q. ¬ (q.id ≡ p.id)) ps × IsDistinct ps

-- The packages `ps` were handed out between `db` and `after`.
pub record HandsOut (db : Db) (ps : List MlsKeyPackage) (after : Db) : Type 0 where
  pub free_before : All (λ p. ¬ IsTaken p.id db) ps
  pub taken_after : All (λ p. IsTaken p.id after) ps
  pub distinct_ids : IsDistinct ps
  -- what was claimed stays claimed
  pub keeps : (id : ℕ) → IsTaken id db → IsTaken id after

HandsOut-none : (db : Db) → HandsOut db [] db
HandsOut-none db = record {
  free_before = tt;
  taken_after = tt;
  distinct_ids = tt;
  keeps = λ id h. h;
}

-- One package, then others.
HandsOut-one_more :
    (locked : ℕ → Bool) (device claimer now : ℕ) (db after : Db) (p : MlsKeyPackage)
    (ps : List MlsKeyPackage)
    → next_package locked device now db ≡ some p
    → HandsOut (mark_claimed claimer now p.id db) ps after
    → HandsOut db (claimed_by claimer now p ∷ ps) after
HandsOut-one_more locked device claimer now db after p ps found h = record {
  free_before = (
    λ taken. cc (taken, next_package-not_taken locked device now db p found),
    All-mono _ _ ps
        (λ (q : MlsKeyPackage) free taken. free (mark_claimed_keeps claimer now p.id q.id db taken))
        h.free_before,
  );
  taken_after = (h.keeps p.id (mark_claimed-IsTaken claimer now p.id db), h.taken_after);
  distinct_ids = (
    All-mono _ _ ps
        (λ (q : MlsKeyPackage) free same. free (
          subst (λ i. IsTaken i (mark_claimed claimer now p.id db)) (sym same)
            (mark_claimed-IsTaken claimer now p.id db)))
        h.free_before,
    h.distinct_ids,
  );
  keeps = λ id taken. h.keeps id (mark_claimed_keeps claimer now p.id id db taken);
}

-- How the loop ends.
abbrev EachLeaves : Session → Result (List MlsKeyPackage) → Session → Type 0
EachLeaves s (ok ps) t = (t.committed ≡ s.committed) × HandsOut s.working ps t.working
EachLeaves s (err e) t = ⊥

module _ (locked : ℕ → Bool) (claimer now : ℕ) where
  one_more :
      (d : Device) (p : MlsKeyPackage) (s : Session)
      → next_package locked d.id now s.working ≡ some p
      → (x : Result (List MlsKeyPackage)) (t : Session)
      → EachLeaves (record s { working = mark_claimed claimer now p.id s.working }) x t
      → After (λ rest. pure (claimed_by claimer now p ∷ rest)) (EachLeaves s) x t
  one_more d p s e (ok ps) t h =
      Ends-pure_last _
        (h.0, HandsOut-one_more locked d.id claimer now s.working t.working p ps e h.1)
  one_more d p s e (err x) t h = absurd h

  claim_found-Leaves :
      (d : Device) (others : Action (List MlsKeyPackage)) (s : Session)
      → ((t : Session) → Ends others t (EachLeaves t))
      → (o : Option MlsKeyPackage) → next_package locked d.id now s.working ≡ o
      → Ends (claim_found claimer now o others) s (EachLeaves s)
  unfolding claim_found
  claim_found-Leaves d others s rest none e = rest s
  claim_found-Leaves d others s rest (some p) e =
      Ends-modify _ _ (Ends-bind _ _ (Ends-weaken (rest _) (one_more d p s e)))

  claim_each-Leaves :
      (ds : List Device) (s : Session) → Ends (claim_each locked claimer now ds) s (EachLeaves s)
  unfolding claim_each
  claim_each-Leaves [] s = Ends-pure_last _ (refl, HandsOut-none s.working)
  claim_each-Leaves (d ∷ ds) s =
      Ends-gets _ _ (claim_found-Leaves d _ s (λ t. claim_each-Leaves ds t) _ refl)

-- What a request for packages of all devices of a user leaves.
abbrev pub ClaimsEach : Db → Result (List MlsKeyPackage) → Db → Type 0
ClaimsEach db (ok ps) after = HandsOut db ps after
ClaimsEach db (err e) after = after ≡ db

committed_each :
    (db : Db) (x : Result (List MlsKeyPackage)) (t : Session)
    → EachLeaves (record { committed = db; working = db }) x t
    → After (λ claimed. commit >> pure claimed) (λ r z. ClaimsEach db r z.committed) x t
committed_each db (ok ps) t h = Ends-commit _ (Ends-pure_last _ h.1)
committed_each db (err e) t h = absurd h

-- POST /e2ee/users/{login}/key-packages/claim is refused and changes nothing, or hands out packages
-- with distinct ids, each of which has an unclaimed row before and only claimed rows afterwards, and
-- an id with only claimed rows before has only claimed rows afterwards.
pub claim_key_packages-ClaimsEach :
    (locked : ℕ → Bool) (login : Text) (device : Device) (now : ℕ) (db : Db)
    → let (r, after) = handle (claim_key_packages locked login device now) db in
      ClaimsEach db r after
unfolding claim_key_packages
claim_key_packages-ClaimsEach locked login device now db = handle_by (ClaimsEach db) _ db (
    Ends-gets _ _ (
      Ends-or_raise _ _ _ (λ _. refl)
        λ target _. Ends-gets _ _ (
          Ends-raise_if _ _ _ (λ _. refl)
            λ _. Ends-gets _ _ (
              Ends-bind _ _
                (Ends-weaken (claim_each-Leaves locked device.id now _ _) (committed_each db))))))
