-- ===== src/E2ee/Envelopes/Retries.antt =====
-- Sending an envelope twice: POST /e2ee/chats/{chat_id}/envelopes and the same request again.
use mathlib.Core.Path.{subst}
use secure_messenger.Http.Ends.{
  Ends, Ends-gets, Ends-bind, Ends-raise_if, Ends-modify, Ends-interleave, Ends-commit_last,
  Ends-pure_last, Ends-branch, handle_by, Ends-weaken, Ends-queried, Ends-got, Ends-or_raise,
  Ends-query,
}
use secure_messenger.Prelude.{
  Bool-cases, is_some, some_inj, find, find-append, delete_where, ℕ, ◌≤◌, ◌≡◌, refl, sym, ap, ◌∙◌,
  inl, inr, Bool, true, false, Option, none, some, List, [], ◌∷◌, arith,
}
use secure_messenger.Model.{Db}
use secure_messenger.Model.Accounts.{Device}
use secure_messenger.Model.Chats.{ChatMember}
use secure_messenger.Model.Mls.{ContentType, application, proposal, welcome, MlsEnvelope}
use secure_messenger.Http.{Result, ok, Session, handle}
use secure_messenger.Queries.{get_device, get_member}
use secure_messenger.E2ee.Envelopes.{
  EnvelopePublish, same_id, is_expired_in, purge_expired_envelopes, valid_recipient, recipient_of,
  sent_as, find_sent, new_envelope, insert_envelope, add_envelope, Published, publish_or_reuse,
  route_digest, publish_mls_envelope,
}
use secure_messenger.E2ee.Envelopes.Routing.{is_elsewhere, retry_answer, resend, after_done}

find-delete :
    (p q : MlsEnvelope → Bool) (e : MlsEnvelope) (es : List MlsEnvelope)
    → find p es ≡ some e
    → q e ≡ false
    → find p (delete_where q es) ≡ some e
find-delete p q e [] h k = absurd (ground arith)
find-delete p q e (x ∷ es) h k = elim (Bool-cases (p x)) [
  | inl hit ↦
      let here : find p (x ∷ es) ≡ some x = ground (arith, hit) in
      subst (λ y. q y ≡ false → find p (delete_where q (x ∷ es)) ≡ some y) (some_inj (sym here ∙ h))
        (λ stays. ground (arith, hit, stays)) k
  | inr miss ↦ ground (arith, h, k, miss, find-delete p q e es)
]

delete-later :
    (c now later : ℕ) (es : List MlsEnvelope)
    → now ≤ later
    → delete_where (is_expired_in c later) (delete_where (is_expired_in c now) es)
      ≡ delete_where (is_expired_in c later) es
delete-later c now later [] le = refl
delete-later c now later (e ∷ es) le = ground (arith, le, delete-later c now later es le)

same_id_refl : (o : Option ℕ) → same_id o o ≡ true
same_id_refl none = refl
same_id_refl (some a) = ground arith

valid_stays :
    (c : ℕ) (o : Option Device) (db : Db) (es : List MlsEnvelope) (n : ℕ)
    → valid_recipient c o (record db { envelopes = es; next_envelope_id = n })
      ≡ valid_recipient c o db
unfolding valid_recipient get_member
valid_stays c none db es n = refl
valid_stays c (some d) db es n = refl

members_stay :
    (c user now : ℕ) (db : Db)
    → get_member c user (purge_expired_envelopes c now db) ≡ get_member c user db
unfolding purge_expired_envelopes get_member
members_stay c user now db = refl

-- The recipient does not depend on the envelopes.
routes_stay :
    (c : ℕ) (content : ContentType) (id : Option ℕ) (db : Db) (es : List MlsEnvelope) (n : ℕ)
    → recipient_of c content id (record db { envelopes = es; next_envelope_id = n })
      ≡ recipient_of c content id db
unfolding recipient_of valid_recipient get_device get_member
routes_stay c welcome none db es n = refl
routes_stay c welcome (some id) db es n = valid_stays c (get_device id db) db es n
routes_stay c application none db es n = refl
routes_stay c application (some id) db es n = refl
routes_stay c ContentType.commit none db es n = refl
routes_stay c ContentType.commit (some id) db es n = refl
routes_stay c proposal none db es n = refl
routes_stay c proposal (some id) db es n = refl

module _ (sha256 : List ℕ → ℕ) (ascii : ℕ → List ℕ) (c : ℕ) (request : EnvelopePublish)
    (device : Device) (now later : ℕ) (le : now ≤ later) where
  abbrev digest : ℕ
  digest = route_digest sha256 ascii request.recipient_device_id request.payload

  -- What the same request finds at the later time.
  record CanRetry (e : MlsEnvelope) (db : Db) : Type 0 where
    pub membership : ChatMember
    pub joined : get_member c device.user_id db ≡ some membership
    pub recipient : Option Device
    pub routed :
        recipient_of c request.content_type request.recipient_device_id
          (purge_expired_envelopes c later db)
        ≡ ok recipient
    pub sent : find_sent device.id digest (purge_expired_envelopes c later db) ≡ some e
    pub near : is_elsewhere c request e ≡ false

  retried :
      (others : Db → Db) (e : MlsEnvelope) (db : Db)
      → CanRetry e db
      → handle (publish_mls_envelope sha256 ascii others c request device later) db
        ≡ (ok (record { envelope = e; notified = [] }), db)
  retried others e db can =
      resend sha256 ascii others c request device later db can.membership can.recipient e can.joined
        can.routed can.sent
      ∙ ap (λ b. (retry_answer b e, db)) can.near

  retry_reused :
      (recipient : Option Device) (m : ChatMember) (e : MlsEnvelope) (db : Db)
      → get_member c device.user_id db ≡ some m
      → recipient_of c request.content_type request.recipient_device_id
          (purge_expired_envelopes c now db)
        ≡ ok recipient
      → find_sent device.id digest (purge_expired_envelopes c now db) ≡ some e
      → is_elsewhere c request e ≡ false
      → is_expired_in c later e ≡ false
      → CanRetry e db
  unfolding purge_expired_envelopes find_sent
  retry_reused recipient m e db joined routed sent near fresh = record {
    membership = m;
    joined = joined;
    recipient = recipient;
    routed =
        routes_stay c request.content_type request.recipient_device_id db _ _
        ∙ sym (routes_stay c request.content_type request.recipient_device_id db _ _)
        ∙ routed;
    sent =
        subst (λ es. find (sent_as device.id digest) es ≡ some e)
          (delete-later c now later db.envelopes le)
          (find-delete _ (is_expired_in c later) e _ sent fresh);
    near = near;
  }

  -- The row that the first request inserts.
  abbrev row : Db → MlsEnvelope
  row db = new_envelope db.next_envelope_id c device.id request digest now

  abbrev inserted : Db → Db
  inserted db = insert_envelope c device.id request digest now db

  sent_row :
      (db : Db)
      → find_sent device.id digest db ≡ none
      → find_sent device.id digest (inserted db) ≡ some (row db)
  unfolding find_sent insert_envelope new_envelope
  sent_row db unsent =
      find-append (sent_as device.id digest) db.envelopes (row db ∷ []) unsent ∙ ground arith

  retry_inserted :
      (recipient : Option Device) (m : ChatMember) (db : Db)
      → get_member c device.user_id db ≡ some m
      → recipient_of c request.content_type request.recipient_device_id db ≡ ok recipient
      → find_sent device.id digest db ≡ none
      → is_expired_in c later (row db) ≡ false
      → CanRetry (row db) (inserted db)
  unfolding purge_expired_envelopes find_sent insert_envelope new_envelope get_member
  retry_inserted recipient m db joined routed unsent fresh = record {
    membership = m;
    joined = joined;
    recipient = recipient;
    routed = routes_stay c request.content_type request.recipient_device_id db _ _ ∙ routed;
    sent = find-delete _ (is_expired_in c later) (row db) _ (sent_row db unsent) fresh;
    near = ground (arith, same_id_refl request.recipient_device_id);
  }

  insertion_succeeds :
      (s : Session)
      → find_sent device.id digest s.working ≡ none
      → Ends (add_envelope c device.id request digest now) s (λ x t.
        (x ≡ ok tt) × (t ≡ record { committed = inserted s.working; working = inserted s.working }))
  unfolding add_envelope
  insertion_succeeds s unsent = Ends-gets _ _ (
      Ends-branch _ _ _
        (λ (taken : is_some (find_sent device.id digest s.working) ≡ true).
          absurd (ground (arith, unsent, taken)))
        λ _. Ends-modify _ _ (Ends-commit_last (refl, refl)))

  -- The outcome of the first request.
  abbrev LetsRetry : Result Published → Db → Type 0
  LetsRetry r after =
      (p : Published)
      → r ≡ ok p
      → is_expired_in c later p.envelope ≡ false
      → CanRetry p.envelope after

  ok_inj : {a b : Published} → ok a ≡ ok b → a ≡ b
  ok_inj p = cc p

  answered :
      (e : MlsEnvelope) (users : List ℕ) (after : Db)
      → (is_expired_in c later e ≡ false → CanRetry e after)
      → LetsRetry (ok (record { envelope = e; notified = users })) after
  answered e users after can p q =
      subst (λ x. is_expired_in c later x ≡ false → CanRetry x after)
        (ap (λ (x : Published). x.envelope) (ok_inj q)) can

  first_ends :
      (recipient : Option Device) (m : ChatMember) (existing : Option MlsEnvelope) (db : Db)
      → get_member c device.user_id db ≡ some m
      → recipient_of c request.content_type request.recipient_device_id
          (purge_expired_envelopes c now db)
        ≡ ok recipient
      → find_sent device.id digest (purge_expired_envelopes c now db) ≡ existing
      → Ends
          (publish_or_reuse (λ x. x) c device.id request digest now recipient existing)
          (record { committed = db; working = purge_expired_envelopes c now db })
          (λ r t. LetsRetry r t.committed)
  unfolding publish_or_reuse
  first_ends recipient m (some e) db joined routed sent =
      Ends-raise_if _ _ _ (λ _ p q. absurd (cc q))
        λ near.
          Ends-pure_last _
            (answered e [] db (retry_reused recipient m e db joined routed sent near))
  first_ends recipient m none db joined routed unsent =
      let purged = purge_expired_envelopes c now db in
      Ends-interleave _ _ (
        Ends-bind _ _ (
          Ends-weaken (insertion_succeeds _ unsent) (
            after_done _ _ (
              Ends-got _ _ (some (row purged)) (sent_row purged unsent) (
                Ends-queried _ _ (row purged) refl (
                  Ends-gets _ _ (
                    Ends-pure_last _ (
                      answered (row purged) _ _ (
                        retry_inserted recipient m purged
                          (members_stay c device.user_id now db ∙ joined) routed unsent)))))))))

  first_request :
      (db : Db)
      → LetsRetry
          (handle (publish_mls_envelope sha256 ascii (λ x. x) c request device now) db).0
          (handle (publish_mls_envelope sha256 ascii (λ x. x) c request device now) db).1
  unfolding publish_mls_envelope
  first_request db = handle_by LetsRetry _ db (
      Ends-gets _ _ (
        Ends-or_raise _ _ _ (λ _ p q. absurd (cc q))
          λ m joined. Ends-modify _ _ (
            Ends-query _ _ (λ e _ p q. absurd (cc q))
              λ r routed. Ends-gets _ _ (first_ends r m _ db joined routed refl))))

  -- An envelope that was sent can be sent again: where a request is answered with success, no other
  -- session commits during it, and the same request comes again before its envelope has expired, the
  -- answer is the same envelope, nobody is notified and the tables stay as they are.
  pub publish_mls_envelope-twice :
      (others : Db → Db) (p : Published) (db after : Db)
      → handle (publish_mls_envelope sha256 ascii (λ x. x) c request device now) db ≡ (ok p, after)
      → is_expired_in c later p.envelope ≡ false
      → handle (publish_mls_envelope sha256 ascii others c request device later) after
        ≡ (ok (record { envelope = p.envelope; notified = [] }), after)
  publish_mls_envelope-twice others p db after first fresh = retried others p.envelope after (
      subst (λ t. CanRetry p.envelope t) (ap (λ x. x.1) first)
        (first_request db p (ap (λ x. x.0) first) fresh))
