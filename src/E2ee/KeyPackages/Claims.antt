-- ===== src/E2ee/KeyPackages/Claims.antt =====
-- A key package is handed out at most once.
use secure_messenger.Prelude.{
  ◌==◌, Option-cases, is_none, is_some, all, update_where, ℕ, ◌≡◌, refl, inl, inr, Bool, true,
  false, ◌||◌, not, some, List, [], ◌∷◌, arith,
}
use secure_messenger.Model.{Db}
use secure_messenger.Model.Accounts.{Device}
use secure_messenger.Model.Mls.{MlsKeyPackage}
use secure_messenger.Http.{Result, ok, err, handle}
use secure_messenger.Http.Ends.{
  Ends-gets, Ends-or_raise, Ends-raise_if, Ends-modify, Ends-commit, Ends-pure_last, handle_by,
}
use secure_messenger.E2ee.KeyPackages.{
  first_package, next_package, claimed_by, mark_claimed, claim_device_key_package,
}

-- Every row with the id is claimed.
abbrev pub IsTaken : ℕ → Db → Type 0
IsTaken id db = all (λ q. not (q.id == id) || is_some q.claimed_at) db.key_packages ≡ true

first_package_passes :
    (test : MlsKeyPackage → Bool) (ps : List MlsKeyPackage) (p : MlsKeyPackage)
    → first_package test ps ≡ some p
    → test p ≡ true
unfolding first_package
first_package_passes test [] p e = absurd (ground arith)
first_package_passes test (x ∷ ps) p e = elim (Option-cases (first_package test ps)) [
  | inl none_left ↦ ground arith
  | inr (q, found) ↦ ground (arith, first_package_passes test ps q found)
]

-- What is handed out has an unclaimed row with its id.
not_taken :
    (test : MlsKeyPackage → Bool) (ps : List MlsKeyPackage) (p : MlsKeyPackage)
    → ((q : MlsKeyPackage) → test q ≡ true → is_none q.claimed_at ≡ true)
    → first_package test ps ≡ some p
    → all (λ q. not (q.id == p.id) || is_some q.claimed_at) ps ≡ false
unfolding first_package
not_taken test [] p only e = absurd (ground arith)
not_taken test (x ∷ ps) p only e = elim (Option-cases (first_package test ps)) [
  | inl none_left ↦ ground (arith, only x)
  | inr (q, found) ↦ ground (arith, only x, not_taken test ps q only found)
]

marked_taken :
    (claimer now id : ℕ) (ps : List MlsKeyPackage)
    → all
        (λ q. not (q.id == id) || is_some q.claimed_at)
        (update_where (λ p. p.id == id) (claimed_by claimer now) ps)
      ≡ true
marked_taken claimer now id [] = refl
marked_taken claimer now id (p ∷ ps) = ground (arith, marked_taken claimer now id ps)

marks_keep_taken :
    (claimer now id other : ℕ) (ps : List MlsKeyPackage)
    → all (λ q. not (q.id == other) || is_some q.claimed_at) ps ≡ true
    → all
        (λ q. not (q.id == other) || is_some q.claimed_at)
        (update_where (λ p. p.id == id) (claimed_by claimer now) ps)
      ≡ true
marks_keep_taken claimer now id other [] h = refl
marks_keep_taken claimer now id other (p ∷ ps) h =
    ground (arith, marks_keep_taken claimer now id other ps)

pub next_package-not_taken :
    (locked : ℕ → Bool) (device_id now : ℕ) (db : Db) (p : MlsKeyPackage)
    → next_package locked device_id now db ≡ some p
    → all (λ q. not (q.id == p.id) || is_some q.claimed_at) db.key_packages ≡ false
unfolding next_package
next_package-not_taken locked device_id now db p e =
    not_taken _ db.key_packages p (λ q h. ground arith) e

pub mark_claimed-IsTaken :
    (claimer now id : ℕ) (db : Db) → IsTaken id (mark_claimed claimer now id db)
unfolding mark_claimed
mark_claimed-IsTaken claimer now id db = marked_taken claimer now id db.key_packages

pub mark_claimed_keeps :
    (claimer now id other : ℕ) (db : Db)
    → IsTaken other db
    → IsTaken other (mark_claimed claimer now id db)
unfolding mark_claimed
mark_claimed_keeps claimer now id other db h =
    marks_keep_taken claimer now id other db.key_packages h

-- What a claim of one package promises: the package was free before, and is taken afterwards.
abbrev pub ClaimsOne : Db → Result MlsKeyPackage → Db → Type 0
ClaimsOne db (ok p) after = ¬ IsTaken p.id db × IsTaken p.id after
ClaimsOne db (err e) after = after ≡ db

-- POST /e2ee/devices/{device_id}/key-package/claim is refused and changes nothing, or hands out a
-- package whose id has an unclaimed row before and only claimed rows afterwards.
pub claim_device_once :
    (locked : ℕ → Bool) (device_id : ℕ) (device : Device) (now : ℕ) (db : Db)
    → let (r, after) = handle (claim_device_key_package locked device_id device now) db in
      ClaimsOne db r after
unfolding claim_device_key_package
claim_device_once locked device_id device now db = handle_by (ClaimsOne db) _ db (
    Ends-gets _ _ (
      Ends-or_raise _ _ _ (λ _. refl)
        λ target _.
          Ends-raise_if _ _ _ (λ _. refl)
            λ _. Ends-gets _ _ (
              Ends-raise_if _ _ _ (λ _. refl)
                λ _. Ends-gets _ _ (
                  Ends-or_raise _ _ _ (λ _. refl)
                    λ p found. Ends-modify _ _ (
                      Ends-commit _ (
                        Ends-pure_last _ (
                          λ taken.
                              cc (taken, next_package-not_taken locked target.id now db p found),
                          mark_claimed-IsTaken device.id now p.id db,
                        )))))))
