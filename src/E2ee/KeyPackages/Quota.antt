-- ===== src/E2ee/KeyPackages/Quota.antt =====
-- The quota of unclaimed key packages.
use secure_messenger.Prelude.{
  ltb, leb, ◌==◌, length, count, count-append, delete_where, ℕ, ◌+◌, ◌≤◌, ◌≡◌, refl, ap, ◌∙◌, false,
  ◌&&◌, List, [], ◌∷◌, arith,
}
use secure_messenger.Model.{Db}
use secure_messenger.Model.Accounts.{Device}
use secure_messenger.Model.Mls.{MlsKeyPackage}
use secure_messenger.Http.{Result, ok, err, handle}
use secure_messenger.Http.Ends.{
  Ends-gets, Ends-raise_if, Ends-modify, Ends-commit, Ends-pure_last, handle_by,
}
use secure_messenger.E2ee.KeyPackages.{
  max_key_packages_per_device, KeyPackagePublish, is_available, available, purge_expired_packages,
  new_packages, insert_packages, publish_key_packages,
}

available-purge :
    (d now : ℕ) (ps : List MlsKeyPackage)
    → count (is_available d now) (delete_where (λ p. p.device_id == d && leb p.expires_at now) ps)
      ≡ count (is_available d now) ps
available-purge d now [] = refl
available-purge d now (p ∷ ps) = ground (arith, available-purge d now ps)

available-new :
    (d : ℕ) (request : KeyPackagePublish) (now : ℕ) (fresh : ℕ → ℕ) (items : List (List ℕ))
    → leb request.expires_at now ≡ false
    → count (is_available d now) (new_packages d request now fresh items) ≡ length items
unfolding new_packages
available-new d request now fresh [] h = refl
available-new d request now fresh (i ∷ items) h =
    ground (arith, available-new d request now fresh items h)

-- What an upload promises on each way to end.
abbrev pub KeepsQuota : ℕ → ℕ → KeyPackagePublish → Db → Result ℕ → Db → Type 0
KeepsQuota d now request db (ok n) after =
    (n ≡ length request.key_packages)
    × (available d now after ≡ available d now db + n)
    × (available d now after ≤ max_key_packages_per_device)
KeepsQuota d now request db (err e) after = after ≡ db

-- POST /e2ee/key-packages either refuses and changes nothing, or adds exactly the uploaded packages
-- to those that the device has available, and then at most 100 are available.
pub publish-KeepsQuota :
    (fresh : ℕ → ℕ) (request : KeyPackagePublish) (device : Device) (now : ℕ) (db : Db)
    → let (r, after) = handle (publish_key_packages fresh request device now) db in
      KeepsQuota device.id now request db r after
unfolding publish_key_packages
publish-KeepsQuota fresh request device now db =
    handle_by (KeepsQuota device.id now request db) _ db (
      Ends-raise_if _ _ _ (λ _. refl)
        (λ _.
          Ends-raise_if _ _ _ (λ _. refl)
            (λ _.
              Ends-raise_if _ _ _ (λ _. refl)
                (λ future.
                  Ends-raise_if _ _ _ (λ _. refl)
                    (λ _.
                      Ends-raise_if _ _ _ (λ _. refl)
                        (λ _. Ends-modify _ _ (
                          Ends-gets _ _ (
                            Ends-raise_if _ _ _ (λ _. refl)
                              (λ room. Ends-modify _ _ (
                                Ends-commit _ (
                                  Ends-pure_last _ (refl, added future, fits future room))))))))))))
  where
    purged : Db
    purged = purge_expired_packages device.id now db

    stored : Db
    stored = insert_packages (new_packages device.id request now fresh request.key_packages) purged

    counted :
        leb request.expires_at now ≡ false
        → available device.id now stored
          ≡ available device.id now purged + length request.key_packages
    counted future =
        unfold available insert_packages in
        ground (
          arith,
          count-append (is_available device.id now) purged.key_packages
              (new_packages device.id request now fresh request.key_packages),
          available-new device.id request now fresh request.key_packages future,
        )

    added :
        leb request.expires_at now ≡ false
        → available device.id now stored ≡ available device.id now db + length request.key_packages
    added future =
        counted future
        ∙ ap (λ n. n + length request.key_packages)
            (unfold available purge_expired_packages in
              available-purge device.id now db.key_packages)

    fits :
        leb request.expires_at now ≡ false
        → ltb max_key_packages_per_device
            (available device.id now purged + length request.key_packages)
          ≡ false
        → available device.id now stored ≤ max_key_packages_per_device
    fits future room = ground (arith, counted future)
