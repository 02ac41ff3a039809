-- ===== src/E2ee/Tests.antt =====
-- Small runs of the end-to-end encryption requests, and the theorems at concrete inputs.
use Prim.Native.Nat.{◌*◌}
use secure_messenger.Prelude.{
  codes, ℕ, zero, suc, ◌+◌, ◌*◌, ◌≡◌, refl, Bool, false, none, List, [], ◌∷◌, arith, find, some,
  ◌==◌,
}
use secure_messenger.Model.{Db}
use secure_messenger.Model.Samples.{phone, alice_owns, small}
use secure_messenger.Model.Mls.{MlsKeyPackage, application, MlsEnvelope}
use secure_messenger.Http.{Result, ok, handle}
use secure_messenger.Queries.{get_device, get_member, share_chat}
use secure_messenger.E2ee.Envelopes.{
  EnvelopePublish, purge_expired_envelopes, recipient_of, find_sent, recipient_ids, Published,
  route_digest, publish_mls_envelope, list_mls_envelopes,
}
use secure_messenger.E2ee.Envelopes.Routing.{lost_race}
use secure_messenger.E2ee.Envelopes.Retries.{publish_mls_envelope-twice}
use secure_messenger.E2ee.Envelopes.Listing.{ListsPage, list_mls_envelopes-IsPage}
use secure_messenger.E2ee.KeyPackages.{
  KeyPackagePublish, publish_key_packages, claimed_by, claim_key_packages, claim_device_key_package,
}
use secure_messenger.E2ee.KeyPackages.Claims.{ClaimsOne, claim_device_once}
use secure_messenger.E2ee.KeyPackages.Quota.{KeepsQuota, publish-KeepsQuota}
use secure_messenger.E2ee.Identity.{publish_identity}
use secure_messenger.E2ee.Identity.Fingerprints.{
  IsIdentified, publish_identity-IsIdentified, identity_is_immutable,
}
use secure_messenger.E2ee.KeyPackages.Batches.{ClaimsEach, claim_key_packages-ClaimsEach}

-- A digest and a rendering of ids that keep everything.
abbrev sum_digest : List ℕ → ℕ
sum_digest [] = 0
sum_digest (x ∷ xs) = x + 2 * sum_digest xs

abbrev id_text : ℕ → List ℕ
id_text n = n ∷ []

abbrev quiet : Db → Db
quiet db = db

abbrev hello : EnvelopePublish
hello = record {
  epoch = 1;
  content_type = application;
  payload = 7 ∷ [];
  recipient_device_id = none;
}

abbrev sent_hello : MlsEnvelope
sent_hello = record {
  id = 1;
  chat_id = 0;
  sender_device_id = 1;
  recipient_device_id = none;
  protocol_version = 1;
  epoch = 1;
  content_type = application;
  payload = 7 ∷ [];
  message_hash = 14;
  created_at = 5;
}

-- The group after one message.
abbrev talking : Db
talking = record small { envelopes = sent_hello ∷ []; next_envelope_id = 2 }

publishes_hello :
    handle (publish_mls_envelope sum_digest id_text quiet 0 hello (phone 1 1) 5) small
    ≡ (ok (record { envelope = sent_hello; notified = 1 ∷ 2 ∷ [] }), talking)
unfolding handle publish_mls_envelope get_member route_digest
publishes_hello = refl

publish_mls_envelope-twice_example :
    handle (publish_mls_envelope sum_digest id_text quiet 0 hello (phone 1 1) 6) talking
    ≡ (ok (record { envelope = sent_hello; notified = [] }), talking)
publish_mls_envelope-twice_example =
    publish_mls_envelope-twice sum_digest id_text 0 hello (phone 1 1) 5 6 (omega arith) quiet
      (record { envelope = sent_hello; notified = 1 ∷ 2 ∷ [] }) small talking publishes_hello refl

list_mls_envelopes-IsPage_example :
    let (r, left) = handle (list_mls_envelopes 0 0 (phone 2 2) 6) talking in
    ListsPage 0 2 0 6 talking r left
list_mls_envelopes-IsPage_example = list_mls_envelopes-IsPage 0 0 (phone 2 2) 6 talking

-- A key package of bob's device.
abbrev bobs_package : MlsKeyPackage
bobs_package = record {
  id = 40;
  device_id = 2;
  key_package = [];
  cipher_suite = 1;
  created_at = 0;
  expires_at = 100;
  claimed_at = none;
  claimed_by_device_id = none;
}

abbrev stocked : Db
stocked = record small { key_packages = bobs_package ∷ [] }

abbrev unlocked : ℕ → Bool
unlocked id = false

hands_out :
    (handle (claim_device_key_package unlocked 2 (phone 1 1) 6) stocked).0
    ≡ ok (claimed_by 1 6 bobs_package)
unfolding handle claim_device_key_package get_device share_chat
hands_out = refl

claim_device_once_example :
    let (r, after) = handle (claim_device_key_package unlocked 2 (phone 1 1) 6) stocked in
    ClaimsOne stocked r after
claim_device_once_example = claim_device_once unlocked 2 (phone 1 1) 6 stocked

claim_key_packages-ClaimsEach_example :
    let (r, after) = handle (claim_key_packages unlocked (codes "bob") (phone 1 1) 6) stocked in
    ClaimsEach stocked r after
claim_key_packages-ClaimsEach_example =
    claim_key_packages-ClaimsEach unlocked (codes "bob") (phone 1 1) 6 stocked

abbrev zeros : ℕ → List ℕ
zeros zero = []
zeros (suc n) = 0 ∷ zeros n

abbrev upload : KeyPackagePublish
upload = record { key_packages = zeros 64 ∷ []; cipher_suite = 1; expires_at = 200 }

publish-KeepsQuota_example :
    let (r, after) = handle (publish_key_packages (λ n. n + 50) upload (phone 2 2) 6) stocked in
    KeepsQuota 2 6 upload stocked r after
publish-KeepsQuota_example = publish-KeepsQuota (λ n. n + 50) upload (phone 2 2) 6 stocked

small-IsIdentified : IsIdentified small
small-IsIdentified = record { one_row = λ i. ground arith; one_device = λ f. ground arith }

publish_identity-IsIdentified_example :
    IsIdentified
      (handle
        (publish_identity sum_digest
          (λ n. n)
          (9 ∷ [])
          (record (phone 1 1) { identity_key = none })
          6)
        small).1
publish_identity-IsIdentified_example =
    publish_identity-IsIdentified sum_digest (λ n. n) (9 ∷ [])
      (record (phone 1 1) { identity_key = none }) 6 small small-IsIdentified

-- A device publishes another key than it has.
identity_is_immutable_example :
    find
      (λ d. d.id == 1)
      (handle (publish_identity sum_digest (λ n. n) (9 ∷ []) (phone 1 1) 6) small).1.devices
    ≡ some (phone 1 1)
identity_is_immutable_example =
    identity_is_immutable sum_digest (λ n. n) (9 ∷ []) (1 ∷ []) (phone 1 1) (phone 1 1) 6 small refl
      refl refl

-- The same message, sent to another chat by a request that comes in between.
abbrev sent_elsewhere : MlsEnvelope
sent_elsewhere = record sent_hello { chat_id = 9 }

abbrev other_request : Db → Db
other_request db = record db { envelopes = sent_elsewhere ∷ db.envelopes; next_envelope_id = 2 }

lost_race_example :
    ◌≡◌ {A = Result Published × Db}
      (handle (publish_mls_envelope sum_digest id_text other_request 0 hello (phone 1 1) 5) small)
      (ok (record { envelope = sent_elsewhere; notified = 1 ∷ 2 ∷ [] }), other_request small)
unfolding recipient_of get_member find_sent route_digest purge_expired_envelopes recipient_ids
lost_race_example =
    lost_race sum_digest id_text other_request 0 hello (phone 1 1) 5 small alice_owns none
      sent_elsewhere refl refl refl refl refl
