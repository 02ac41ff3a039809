-- ===== src/E2ee/KeyPackages.antt =====
-- app/routers/e2ee.py: publishing and claiming MLS key packages.
pub mod Claims
pub mod Quota
pub mod Batches
use secure_messenger.Prelude.{
  ltb, leb, ◌==◌, if◌then◌else◌, is_none, is_some, length, filter, all, count, update_where,
  delete_where, Text, ℕ, ◌+◌, Bool, ◌&&◌, ◌||◌, not, Option, none, some, List, [], ◌∷◌, ◌++◌,
  order_by,
}
use secure_messenger.Model.{Db}
use secure_messenger.Model.Accounts.{Device}
use secure_messenger.Model.Mls.{MlsKeyPackage}
use secure_messenger.Http.{Action, pure, gets, or_raise, raise_if, modify, commit, ◌>>=◌, ◌>>◌}
use secure_messenger.Queries.{find_active_user, get_device, share_chat}

abbrev pub mls_cipher_suite : ℕ
mls_cipher_suite = 1

abbrev pub max_key_packages_per_device : ℕ
max_key_packages_per_device = 100

-- timedelta(days=7), in microseconds
abbrev pub max_key_package_lifetime : ℕ
max_key_package_lifetime = 604800000000

pub record KeyPackagePublish : Type 0 where
  pub key_packages : List (List ℕ)
  pub cipher_suite : ℕ
  pub expires_at : ℕ

-- Neither claimed nor expired.
abbrev pub is_available : ℕ → ℕ → MlsKeyPackage → Bool
is_available device_id now p =
    p.device_id == device_id && is_none p.claimed_at && ltb now p.expires_at

-- select(func.count(MlsKeyPackage.id)).where(...)
unfoldable pub available : ℕ → ℕ → Db → ℕ
available device_id now db = count (is_available device_id now) db.key_packages

unfoldable pub purge_expired_packages : ℕ → ℕ → Db → Db
purge_expired_packages device_id now db = record db {
  key_packages =
      delete_where (λ p. p.device_id == device_id && leb p.expires_at now) db.key_packages;
}

-- `64 <= len(item) <= 65_536`
abbrev pub has_valid_size : List ℕ → Bool
has_valid_size item = leb 64 (length item) && leb (length item) 65536

-- The rows of one upload. The uuids of the rows come from `fresh`, in the order of the packages.
unfoldable pub new_packages :
    ℕ → KeyPackagePublish → ℕ → (ℕ → ℕ) → List (List ℕ) → List MlsKeyPackage
new_packages device_id request now fresh [] = []
new_packages device_id request now fresh (item ∷ items) =
    record {
      id = fresh (length items);
      device_id = device_id;
      key_package = item;
      cipher_suite = request.cipher_suite;
      created_at = now;
      expires_at = request.expires_at;
      claimed_at = none;
      claimed_by_device_id = none;
    }
    ∷ new_packages device_id request now fresh items

unfoldable pub insert_packages : List MlsKeyPackage → Db → Db
insert_packages ps db = record db { key_packages = db.key_packages ++ ps }

unfoldable pub publish_key_packages : (ℕ → ℕ) → KeyPackagePublish → Device → ℕ → Action ℕ
unfolding purge_expired_packages new_packages insert_packages available
publish_key_packages fresh request device now = do
  raise_if (is_none device.identity_key) 409
  raise_if (not (request.cipher_suite == mls_cipher_suite)) 422
  raise_if (leb request.expires_at now) 400
  raise_if (ltb (now + max_key_package_lifetime) request.expires_at) 422
  raise_if (not (all has_valid_size request.key_packages)) 422
  modify (purge_expired_packages device.id now)
  stored ← gets (available device.id now)
  raise_if (ltb max_key_packages_per_device (stored + length request.key_packages)) 429
  modify (insert_packages (new_packages device.id request now fresh request.key_packages))
  commit
  pure (length request.key_packages)

-- A package that a claim may hand out.
abbrev pub is_claimable : ℕ → ℕ → MlsKeyPackage → Bool
is_claimable device_id now p = is_available device_id now p && p.cipher_suite == mls_cipher_suite

-- `key_package_inventory`
unfoldable pub inventory : Device → ℕ → Db → ℕ
inventory device now db = count (is_claimable device.id now) db.key_packages

-- ORDER BY created_at, id
abbrev pub is_before : MlsKeyPackage → MlsKeyPackage → Bool
is_before p q = ltb p.created_at q.created_at || (p.created_at == q.created_at && leb p.id q.id)

-- The first row in that order that passes a test.
unfoldable pub first_package : (MlsKeyPackage → Bool) → List MlsKeyPackage → Option MlsKeyPackage
first_package test [] = none
first_package test (p ∷ ps) =
    let rest = first_package test ps in
    if test p
    then elim rest [ none ↦ some p | some q ↦ if is_before p q then some p else some q ]
    else rest

-- The package of a device that `with_for_update(skip_locked=True)` selects. `locked` are the rows
-- that other transactions hold.
unfoldable pub next_package : (ℕ → Bool) → ℕ → ℕ → Db → Option MlsKeyPackage
unfolding first_package
next_package locked device_id now db =
    first_package (λ p. is_claimable device_id now p && not (locked p.id)) db.key_packages

abbrev pub claimed_by : ℕ → ℕ → MlsKeyPackage → MlsKeyPackage
claimed_by claimer now p = record p { claimed_at = some now; claimed_by_device_id = some claimer }

unfoldable pub mark_claimed : ℕ → ℕ → ℕ → Db → Db
mark_claimed claimer now id db = record db {
  key_packages = update_where (λ p. p.id == id) (claimed_by claimer now) db.key_packages;
}

-- The devices of a user that can be invited to a group, without the caller's own, in the order
-- of (created_at, id).
unfoldable pub target_devices : ℕ → ℕ → Db → List Device
unfolding order_by
target_devices user_id own db =
    order_by
      (λ a b. ltb a.created_at b.created_at || (a.created_at == b.created_at && ltb a.id b.id))
      (filter
        (λ d.
          d.user_id == user_id
          && is_none d.revoked_at
          && is_some d.identity_key
          && not (d.id == own))
        db.devices)

-- The body of the loop of `claim_key_packages`, with what the rest of the loop does.
unfoldable pub claim_found :
    ℕ → ℕ → Option MlsKeyPackage → Action (List MlsKeyPackage) → Action (List MlsKeyPackage)
unfolding mark_claimed
claim_found claimer now none others = others
claim_found claimer now (some p) others = do
  modify (mark_claimed claimer now p.id)
  rest ← others
  pure (claimed_by claimer now p ∷ rest)

-- One package for each device that has one.
unfoldable pub claim_each : (ℕ → Bool) → ℕ → ℕ → List Device → Action (List MlsKeyPackage)
unfolding next_package claim_found
claim_each locked claimer now [] = pure []
claim_each locked claimer now (d ∷ ds) = do
  found ← gets (next_package locked d.id now)
  claim_found claimer now found (claim_each locked claimer now ds)

unfoldable pub claim_key_packages : (ℕ → Bool) → Text → Device → ℕ → Action (List MlsKeyPackage)
unfolding target_devices claim_each
claim_key_packages locked login device now = do
  found ← gets (find_active_user login)
  target ← or_raise found 404
  shared ← gets (share_chat device.user_id target.id)
  raise_if (not shared) 403
  devices ← gets (target_devices target.id device.id)
  claimed ← claim_each locked device.id now devices
  commit
  pure claimed

-- The target of `claim_device_key_package`: neither revoked, nor without identity, nor the caller.
abbrev pub is_unfit_target : Device → Device → Bool
is_unfit_target target own =
    is_some target.revoked_at || is_none target.identity_key || target.id == own.id

unfoldable pub claim_device_key_package : (ℕ → Bool) → ℕ → Device → ℕ → Action MlsKeyPackage
unfolding next_package mark_claimed
claim_device_key_package locked device_id device now = do
  found ← gets (get_device device_id)
  target ← or_raise found 404
  raise_if (is_unfit_target target device) 404
  shared ← gets (share_chat device.user_id target.user_id)
  raise_if (not shared) 403
  available_one ← gets (next_package locked target.id now)
  p ← or_raise available_one 409
  modify (mark_claimed device.id now p.id)
  commit
  pure (claimed_by device.id now p)
