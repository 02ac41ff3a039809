-- ===== src/E2ee/Identity/Fingerprints.antt =====
-- PUT /e2ee/identity: keys are immutable, and no two devices have one fingerprint.
use secure_messenger.Prelude.{
  ◌==◌, Bool-cases, is_some, find, count, update_where, ℕ, ◌≤◌, ◌≡◌, refl, ◌∙◌, inl, inr, Bool,
  false, ◌&&◌, not, Option, none, some, List, [], ◌∷◌, arith, some_inj, sym, ap,
}
use secure_messenger.Model.{Db}
use secure_messenger.Model.Accounts.{Device, SecurityEvent}
use secure_messenger.E2ee.Identity.{
  has_fingerprint, find_collision, with_identity, set_identity, add_events, publish_or_keep,
  publish_identity,
}
use secure_messenger.Http.{handle}
use secure_messenger.Http.Ends.{
  Ends-gets, Ends-raise_if, Ends-modify, Ends-commit, Ends-pure_last, handle_by,
}

-- One row for each device id, one device for each fingerprint.
pub record IsIdentified (db : Db) : Type 0 where
  pub one_row : (id : ℕ) → count (λ d. d.id == id) db.devices ≤ 1
  pub one_device : (f : ℕ) → count (has_fingerprint f) db.devices ≤ 1

count-set_id :
    (own : ℕ) (key : List ℕ) (f now id : ℕ) (ds : List Device)
    → count (λ d. d.id == id) (update_where (λ d. d.id == own) (with_identity key f now) ds)
      ≡ count (λ d. d.id == id) ds
count-set_id own key f now id [] = refl
count-set_id own key f now id (d ∷ ds) = ground (arith, count-set_id own key f now id ds)

-- The device gets a fingerprint that no other device has.
count-set_same :
    (own : ℕ) (key : List ℕ) (f now : ℕ) (ds : List Device)
    → find (λ d. has_fingerprint f d && not (d.id == own)) ds ≡ none
    → count (has_fingerprint f) (update_where (λ d. d.id == own) (with_identity key f now) ds)
      ≡ count (λ d. d.id == own) ds
count-set_same own key f now [] h = refl
count-set_same own key f now (d ∷ ds) h = ground (arith, count-set_same own key f now ds)

count-set_other :
    (own : ℕ) (key : List ℕ) (f now g : ℕ) (ds : List Device)
    → (f == g) ≡ false
    → count (has_fingerprint g) (update_where (λ d. d.id == own) (with_identity key f now) ds)
      ≤ count (has_fingerprint g) ds
count-set_other own key f now g [] h = omega arith
count-set_other own key f now g (d ∷ ds) h = ground (arith, count-set_other own key f now g ds h)

set_identity-IsIdentified :
    (own : ℕ) (key : List ℕ) (f now : ℕ) (db : Db)
    → is_some (find_collision f own db) ≡ false
    → IsIdentified db
    → IsIdentified (set_identity own key f now db)
unfolding set_identity find_collision
set_identity-IsIdentified own key f now db free v = record {
  one_row = λ id. rw (count-set_id own key f now id db.devices) (v.one_row id);
  one_device = λ g. elim (Bool-cases (f == g)) [
    | inl same ↦ ground (arith, v.one_row own, count-set_same own key f now db.devices, same)
    | inr other ↦ ground (arith, v.one_device g, count-set_other own key f now g db.devices other)
  ];
}

add_events-IsIdentified :
    (es : List SecurityEvent) (db : Db) → IsIdentified db → IsIdentified (add_events es db)
unfolding add_events
add_events-IsIdentified es db v = record { one_row = v.one_row; one_device = v.one_device }

keep_or_set :
    (fresh : ℕ → ℕ) (key : List ℕ) (f : ℕ) (device : Device) (now : ℕ) (db : Db)
    (old : Option (List ℕ))
    → IsIdentified db
    → IsIdentified (handle (publish_or_keep fresh key f device now old) db).1
unfolding publish_or_keep
keep_or_set fresh key f device now db (some old) v =
    handle_by (λ r t. IsIdentified t) _ db (Ends-raise_if _ _ _ (λ _. v) λ _. Ends-pure_last _ v)
keep_or_set fresh key f device now db none v =
    handle_by (λ r t. IsIdentified t) _ db
      (Ends-gets _ _ (
        Ends-raise_if _ _ _ (λ _. v)
          λ free. Ends-modify _ _ (
            Ends-commit _ (
              Ends-gets _ _ (
                Ends-modify _ _ (
                  Ends-commit _ (
                    Ends-pure_last _ (
                      add_events-IsIdentified _ _
                        (set_identity-IsIdentified device.id key f now db free v)))))))))

-- PUT /e2ee/identity keeps one row for each device id and at most one device for each fingerprint,
-- whatever key it gets.
pub publish_identity-IsIdentified :
    (sha256 : List ℕ → ℕ) (fresh : ℕ → ℕ) (key : List ℕ) (device : Device) (now : ℕ) (db : Db)
    → IsIdentified db
    → IsIdentified (handle (publish_identity sha256 fresh key device now) db).1
unfolding publish_identity
publish_identity-IsIdentified sha256 fresh key device now db v =
    keep_or_set fresh key (sha256 key) device now db device.identity_key v

abbrev has_device_id : ℕ → Device → Bool
has_device_id id d = d.id == id

find-set_other :
    (own : ℕ) (key : List ℕ) (f now id : ℕ) (ds : List Device)
    → (own == id) ≡ false
    → find (has_device_id id) (update_where (λ d. d.id == own) (with_identity key f now) ds)
      ≡ find (has_device_id id) ds
find-set_other own key f now id [] h = refl
find-set_other own key f now id (d ∷ ds) h = ground (arith, h, find-set_other own key f now id ds h)

-- The row stays: the device that publishes either has an identity, or is another device.
row_stays :
    (fresh : ℕ → ℕ) (key : List ℕ) (f : ℕ) (device : Device) (now : ℕ) (db : Db) (id : ℕ)
    (old : Option (List ℕ)) (row : Option Device)
    → (old ≡ none → (device.id == id) ≡ false)
    → find (has_device_id id) db.devices ≡ row
    → find (has_device_id id) (handle (publish_or_keep fresh key f device now old) db).1.devices
      ≡ row
unfolding publish_or_keep set_identity add_events
row_stays fresh key f device now db id (some old) row apart there =
    handle_by (λ r (t : Db). find (has_device_id id) t.devices ≡ row) _ db
      (Ends-raise_if _ _ _ (λ _. there) λ _. Ends-pure_last _ there)
row_stays fresh key f device now db id none row apart there =
    handle_by (λ r (t : Db). find (has_device_id id) t.devices ≡ row) _ db
      (Ends-gets _ _ (
        Ends-raise_if _ _ _ (λ _. there)
          λ free. Ends-modify _ _ (
            Ends-commit _ (
              Ends-gets _ _ (
                Ends-modify _ _ (
                  Ends-commit _ (
                    Ends-pure_last _
                      (find-set_other device.id key f now id db.devices (apart refl) ∙ there))))))))

same_row :
    (a b : Device) (db : Db)
    → find (has_device_id a.id) db.devices ≡ some a
    → find (has_device_id b.id) db.devices ≡ some b
    → a.id ≡ b.id
    → a.identity_key ≡ b.identity_key
same_row a b db p q same =
    ap (λ (d : Device). d.identity_key)
      (some_inj (sym p ∙ ap (λ id. find (has_device_id id) db.devices) same ∙ q))

-- An identity is immutable: whichever device of the tables publishes whatever key, a device that has
-- an identity key keeps its row as it is.
pub identity_is_immutable :
    (sha256 : List ℕ → ℕ) (fresh : ℕ → ℕ) (key old : List ℕ) (device d : Device) (now : ℕ) (db : Db)
    → find (λ x. x.id == device.id) db.devices ≡ some device
    → find (λ x. x.id == d.id) db.devices ≡ some d
    → d.identity_key ≡ some old
    → find (λ x. x.id == d.id) (handle (publish_identity sha256 fresh key device now) db).1.devices
      ≡ some d
unfolding publish_identity
identity_is_immutable sha256 fresh key old device d now db current there has_key =
    row_stays fresh key (sha256 key) device now db d.id device.identity_key (some d)
      (λ unset. elim (Bool-cases (device.id == d.id)) [
        | inl same ↦
            absurd (cc (same_row device d db current there (ground (arith, same)), unset, has_key))
        | inr apart ↦ apart
      ])
      there
