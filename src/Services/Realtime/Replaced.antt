-- ===== src/Services/Realtime/Replaced.antt =====
-- Two sockets with one token, which share an entry of the dictionary of connections.
use secure_messenger.Prelude.{
  if◌then◌else◌, Bool-cases, find, any, update_where, delete_where, ◌≡◌, refl, ap, ◌∙◌, inl, inr,
  true, false, some, List, [], ◌∷◌, ◌++◌, arith,
}
use secure_messenger.Services.Realtime.{Connection, has_token, connect, disconnect}

module _ (a b : Connection) (same : a.token ≡ b.token) where
  has_b : has_token b.token a ≡ true
  has_b = ground (arith, same)

  update-twice :
      (cs : List Connection)
      → update_where (has_token b.token) (λ _. b) (update_where (has_token b.token) (λ _. a) cs)
        ≡ update_where (has_token b.token) (λ _. b) cs
  update-twice [] = refl
  update-twice (c ∷ cs) = ground (arith, update-twice cs, has_b)

  any-update :
      (cs : List Connection)
      → any (has_token b.token) (update_where (has_token b.token) (λ _. a) cs)
        ≡ any (has_token b.token) cs
  any-update [] = refl
  any-update (c ∷ cs) = ground (arith, any-update cs, has_b)

  any-append : (cs : List Connection) → any (has_token b.token) (cs ++ a ∷ []) ≡ true
  any-append [] = ground (arith, has_b)
  any-append (c ∷ cs) = ground (arith, any-append cs)

  update-append :
      (cs : List Connection)
      → any (has_token b.token) cs ≡ false
      → update_where (has_token b.token) (λ _. b) (cs ++ a ∷ []) ≡ cs ++ b ∷ []
  update-append [] h = ground (arith, has_b)
  update-append (c ∷ cs) h = ground (arith, update-append cs, h)

  -- `connect a cs` by the token of b.
  abbrev with_a : List Connection → List Connection
  with_a cs =
      if any (has_token b.token) cs
      then update_where (has_token b.token) (λ _. a) cs
      else cs ++ a ∷ []

  connect-with_a : (cs : List Connection) → connect a cs ≡ with_a cs
  unfolding connect
  connect-with_a cs =
      ap
        (λ t. if any (has_token t) cs then update_where (has_token t) (λ _. a) cs else cs ++ a ∷ [])
        same

  connect-with_b : (cs : List Connection) → connect b (with_a cs) ≡ connect b cs
  unfolding connect
  connect-with_b cs = elim (Bool-cases (any (has_token b.token) cs)) [
    | inl there ↦ rw there (rw (any-update cs) (rw there (update-twice cs)))
    | inr absent ↦ rw absent (rw (any-append cs) (update-append cs absent))
  ]

  connect-replaced : (cs : List Connection) → connect b (connect a cs) ≡ connect b cs
  connect-replaced cs = ap (connect b) (connect-with_a cs) ∙ connect-with_b cs

  delete-update :
      (cs : List Connection)
      → delete_where (has_token b.token) (update_where (has_token b.token) (λ _. b) cs)
        ≡ delete_where (has_token b.token) cs
  delete-update [] = refl
  delete-update (c ∷ cs) = ground (arith, delete-update cs)

  delete-append :
      (cs : List Connection)
      → delete_where (has_token b.token) (cs ++ b ∷ []) ≡ delete_where (has_token b.token) cs
  delete-append [] = ground arith
  delete-append (c ∷ cs) = ground (arith, delete-append cs)

  disconnect-connect :
      (cs : List Connection) → disconnect b.token (connect b cs) ≡ disconnect b.token cs
  unfolding connect disconnect
  disconnect-connect cs = elim (Bool-cases (any (has_token b.token) cs)) [
    | inl there ↦ rw there (delete-update cs)
    | inr absent ↦ rw absent (delete-append cs)
  ]

  find-update :
      (cs : List Connection)
      → any (has_token b.token) cs ≡ true
      → find (has_token b.token) (update_where (has_token b.token) (λ _. b) cs) ≡ some b
  find-update [] h = absurd (ground arith)
  find-update (c ∷ cs) h = ground (arith, find-update cs, h)

  find-append_last :
      (cs : List Connection)
      → any (has_token b.token) cs ≡ false
      → find (has_token b.token) (cs ++ b ∷ []) ≡ some b
  find-append_last [] h = ground arith
  find-append_last (c ∷ cs) h = ground (arith, find-append_last cs, h)

  find-connect : (cs : List Connection) → find (has_token b.token) (connect b cs) ≡ some b
  unfolding connect
  find-connect cs = elim (Bool-cases (any (has_token b.token) cs)) [
    | inl there ↦ rw there (find-update cs there)
    | inr absent ↦ rw absent (find-append_last cs absent)
  ]

-- A second socket with the token of the first is connected in its place, as if the first had never
-- been connected; and when the first one is disconnected, it is the second that is removed, and the
-- connections are those without either.
pub second_socket_is_lost :
    (a b : Connection) (cs : List Connection)
    → a.token ≡ b.token
    → (connect b (connect a cs) ≡ connect b cs)
      × ((find (has_token b.token) (connect b (connect a cs)) ≡ some b)
          × (disconnect a.token (connect b (connect a cs)) ≡ disconnect b.token cs))
second_socket_is_lost a b cs same =
    rw (connect-replaced a b same cs)
      (refl, (find-connect a b same cs, rw same (disconnect-connect a b same cs)))
