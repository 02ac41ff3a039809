-- ===== src/E2ee/Envelopes/Routing.antt =====
-- Retries and races of POST /e2ee/chats/{chat_id}/envelopes.
use mathlib.Core.Path.{subst}
use secure_messenger.Prelude.{
  ◌==◌, is_some, ℕ, ◌≡◌, refl, sym, Bool, true, false, ◌||◌, not, Option, none, some, List, [],
  arith,
}
use secure_messenger.Model.{Db}
use secure_messenger.Model.Accounts.{Device}
use secure_messenger.Model.Chats.{ChatMember}
use secure_messenger.Model.Mls.{MlsEnvelope}
use secure_messenger.Http.{status, Result, ok, err, Session, Action, handle}
use secure_messenger.Http.Ends.{
  Ends, Ends-gets, After, Ends-bind, Ends-raise_if, Ends-modify, Ends-interleave,
  Ends-rollback_last, Ends-pure_last, Ends-branch, handle_by, Ends-weaken, Ends-found, Ends-queried,
  Ends-got,
}
use secure_messenger.Queries.{get_member}
use secure_messenger.E2ee.Envelopes.{
  EnvelopePublish, same_id, purge_expired_envelopes, recipient_of, find_sent, add_envelope,
  recipient_ids, Published, publish_or_reuse, route_digest, publish_mls_envelope,
}

-- Sent to another chat or to another recipient than asked now.
abbrev pub is_elsewhere : ℕ → EnvelopePublish → MlsEnvelope → Bool
is_elsewhere c request e =
    not (e.chat_id == c) || not (same_id e.recipient_device_id request.recipient_device_id)

-- The answer to a retry.
abbrev pub retry_answer : Bool → MlsEnvelope → Result Published
retry_answer true e = err (status 409)
retry_answer false e = ok (record { envelope = e; notified = [] })

-- The outcome of a retry.
abbrev IsRetryOf : Bool → MlsEnvelope → Db → Result Published → Db → Type 0
IsRetryOf b e db r after = ◌≡◌ {A = Result Published × Db} (r, after) (retry_answer b e, db)

reused :
    (others : Db → Db) (c sender : ℕ) (request : EnvelopePublish) (digest now : ℕ)
    (r : Option Device) (e : MlsEnvelope) (s : Session)
    → Ends
        (publish_or_reuse others c sender request digest now r (some e))
        s
        (λ x t. IsRetryOf (is_elsewhere c request e) e s.committed x t.committed)
unfolding publish_or_reuse
reused others c sender request digest now r e s =
    Ends-raise_if _ _ _ (λ far. ground (arith, far)) λ near. Ends-pure_last _ (ground (arith, near))

-- Sending again what is still stored answers with the stored envelope where the chat and the
-- recipient are the same, and with 409 where they are not; it notifies nobody and changes nothing.
pub resend :
    (sha256 : List ℕ → ℕ) (ascii : ℕ → List ℕ) (others : Db → Db) (c : ℕ)
    (request : EnvelopePublish) (device : Device) (now : ℕ) (db : Db) (m : ChatMember)
    (r : Option Device) (e : MlsEnvelope)
    → get_member c device.user_id db ≡ some m
    → recipient_of c request.content_type request.recipient_device_id
        (purge_expired_envelopes c now db)
      ≡ ok r
    → find_sent device.id
        (route_digest sha256 ascii request.recipient_device_id request.payload)
        (purge_expired_envelopes c now db)
      ≡ some e
    → handle (publish_mls_envelope sha256 ascii others c request device now) db
      ≡ (retry_answer (is_elsewhere c request e) e, db)
unfolding publish_mls_envelope
resend sha256 ascii others c request device now db m r e joined routed sent =
    handle_by (IsRetryOf (is_elsewhere c request e) e db) _ db (
      Ends-gets _ _ (
        Ends-found _ _ _ m joined (
          Ends-modify _ _ (
            Ends-queried _ _ r routed (
              Ends-got _ _ (some e) sent (
                reused others c device.id request
                  (route_digest sha256 ascii request.recipient_device_id request.payload) now r e
                  _))))))

-- The rest after an action with a known end.
pub after_done :
    (k : Unit {0} → Action Published) (Q : Result Published → Session → Type 0) {z : Session}
    → Ends (k tt) z Q
    → (x : Result Unit) (t : Session) → (x ≡ ok tt) × (t ≡ z)
    → After k Q x t
after_done k Q h (ok v) t (p, q) = subst (λ y. Ends (k v) y Q) (sym q) h
after_done k Q h (err e) t (p, q) = absurd (cc p)

-- The insertion that fails on the unique index.
insertion_fails :
    (c sender : ℕ) (request : EnvelopePublish) (digest now : ℕ) (e : MlsEnvelope) (s : Session)
    → find_sent sender digest s.working ≡ some e
    → Ends
        (add_envelope c sender request digest now)
        s
        (λ x t. (x ≡ ok tt) × (t ≡ record { committed = s.committed; working = s.committed }))
unfolding add_envelope
insertion_fails c sender request digest now e s taken = Ends-gets _ _ (
    Ends-branch _ _ _ (λ _. Ends-rollback_last (refl, refl))
      λ (free : is_some (find_sent sender digest s.working) ≡ false).
        absurd (ground (arith, taken, free)))

answered_by_other :
    (others : Db → Db) (c sender : ℕ) (request : EnvelopePublish) (digest now : ℕ)
    (r : Option Device) (e : MlsEnvelope) (s : Session)
    → find_sent sender digest (others s.working) ≡ some e
    → find_sent sender digest (others s.committed) ≡ some e
    → Ends (publish_or_reuse others c sender request digest now r none) s (λ x t.
      ◌≡◌ {A = Result Published × Db}
        (x, t.committed)
        (
          ok (record { envelope = e; notified = recipient_ids c r (others s.committed) }),
          others s.committed,
        ))
unfolding publish_or_reuse
answered_by_other others c sender request digest now r e s taken stored = Ends-interleave _ _ (
    Ends-bind _ _ (
      Ends-weaken (insertion_fails c sender request digest now e _ taken) (
        after_done _ _ (
          Ends-got _ _ (some e) stored
            (Ends-queried _ _ e refl (Ends-gets _ _ (Ends-pure_last _ refl)))))))

-- Where another request of the same device commits an envelope with the same digest between the
-- query and the insertion, the answer is that envelope, whatever chat and recipient it was sent to,
-- and the recipients in this chat are notified of it.
pub lost_race :
    (sha256 : List ℕ → ℕ) (ascii : ℕ → List ℕ) (others : Db → Db) (c : ℕ)
    (request : EnvelopePublish) (device : Device) (now : ℕ) (db : Db) (m : ChatMember)
    (r : Option Device) (e : MlsEnvelope)
    → let digest = route_digest sha256 ascii request.recipient_device_id request.payload in
      let purged = purge_expired_envelopes c now db in
      get_member c device.user_id db ≡ some m
      → recipient_of c request.content_type request.recipient_device_id purged ≡ ok r
      → find_sent device.id digest purged ≡ none
      → find_sent device.id digest (others purged) ≡ some e
      → find_sent device.id digest (others db) ≡ some e
      → ◌≡◌ {A = Result Published × Db}
          (handle (publish_mls_envelope sha256 ascii others c request device now) db)
          (ok (record { envelope = e; notified = recipient_ids c r (others db) }), others db)
unfolding publish_mls_envelope
lost_race sha256 ascii others c request device now db m r e joined routed unsent taken stored =
    handle_by
      (λ x t.
        ◌≡◌ {A = Result Published × Db} (x, t)
          (ok (record { envelope = e; notified = recipient_ids c r (others db) }), others db))
      _ db
      (Ends-gets _ _ (
        Ends-found _ _ _ m joined (
          Ends-modify _ _ (
            Ends-queried _ _ r routed (
              Ends-got _ _ none unsent (
                answered_by_other others c device.id request
                  (route_digest sha256 ascii request.recipient_device_id request.payload) now r e _
                  taken stored))))))
