-- ===== src/Services/Realtime/Drain.antt =====
-- The endpoints can always end: from every reachable state the connection table can become empty.
use secure_messenger.Prelude.{All, Text, ℕ, ◌≡◌, refl, List, [], ◌∷◌, any, arith, ◌∙◌, ap, length}
use secure_messenger.Services.Realtime.{Connection, connect, disconnect}
use secure_messenger.Services.Realtime.Sockets.{
  Sockets, finish, Step, Reach, IsServed, accepted, disconnected, left, next, is_entry_of,
}
use secure_messenger.Services.Realtime.Gauge.{Reach-IsCounted}

-- Where the steps lead: no endpoint is open, and the table is empty.
pub record IsDrained (t : Sockets) : Type 0 where
  pub none_accepting : t.accepting ≡ []
  pub none_running : t.running ≡ []
  pub none_leaving : t.leaving ≡ []
  pub no_connections : t.connections ≡ []
  pub gauge_left : t.metrics.websocket_connections ≡ t.aborted

module _ (sha256 token_id : Text → ℕ) where
  -- Some steps of the tasks, the first one outermost.
  pub data Steps : Sockets → Sockets → Type 0 where
    stay : (s : Sockets) → Steps s s
    step_then : {s t u : Sockets} → Step sha256 token_id s t → Steps t u → Steps s u

  append-Steps : {s t u : Sockets} → Steps s t → Steps t u → Steps s u
  append-Steps (stay s) later = later
  append-Steps (step_then one more) later = step_then one (append-Steps more later)

  Reach-Steps : {s t : Sockets} → Reach sha256 token_id s → Steps s t → Reach sha256 token_id t
  Reach-Steps before (stay s) = before
  Reach-Steps before (step_then one more) = Reach-Steps (next before one) more

  -- Every `accept` ends.
  accept_all :
      (xs : List Connection) (s : Sockets)
      → s.accepting ≡ xs
      → (t : Sockets) × Steps s t × (t.accepting ≡ [])
  accept_all [] s e = (s, stay s, e)
  accept_all (c ∷ xs) s e =
      let (t, steps, done) =
        accept_all xs
          (record s {
            accepting = xs;
            running = c ∷ s.running;
            connections = connect c s.connections;
          })
          refl in
      (t, step_then (accepted s [] xs c e) steps, done)

  -- Every client disconnects.
  disconnect_every :
      (xs : List Connection) (s : Sockets)
      → s.running ≡ xs
      → (t : Sockets) × Steps s t × (t.running ≡ []) × (t.accepting ≡ s.accepting)
  unfolding finish
  disconnect_every [] s e = (s, stay s, e, refl)
  disconnect_every (c ∷ xs) s e =
      let (t, steps, done, kept) = disconnect_every xs (finish xs c s) refl in
      (t, step_then (disconnected s [] xs c e) steps, done, kept)

  -- Every endpoint gets the lock.
  leave_all :
      (xs : List Connection) (s : Sockets)
      → s.leaving ≡ xs
      → (t : Sockets) × Steps s t
        × (t.leaving ≡ [])
        × (t.running ≡ s.running)
        × (t.accepting ≡ s.accepting)
  leave_all [] s e = (s, stay s, e, refl, refl)
  leave_all (c ∷ xs) s e =
      let (t, steps, done, running, accepting) =
        leave_all xs (record s { leaving = xs; connections = disconnect c.token s.connections })
          refl in
      (t, step_then (left s [] xs c e) steps, done, running, accepting)

  unserved :
      (s : Sockets) (cs : List Connection)
      → s.running ≡ []
      → s.leaving ≡ []
      → All (IsServed s) cs
      → cs ≡ []
  unserved s [] r l v = refl
  unserved s (c ∷ cs) r l v = absurd (
      ground (arith, v.0, ap (λ xs. any (is_entry_of c) xs) r, ap (λ xs. any (is_entry_of c) xs) l))

  -- From every reachable state, steps that end the endpoints lead to a state where no endpoint is
  -- open, the connection table is empty and the gauge counts only the endpoints that `accept` ended.
  pub sockets_drain :
      {s : Sockets} → Reach sha256 token_id s → (t : Sockets) × Steps s t × IsDrained t
  sockets_drain {s} reached =
      let (a, to_a, none_accepting) = accept_all s.accepting s refl in
      let (b, to_b, none_running, same_accepting) = disconnect_every a.running a refl in
      let (t, to_t, none_leaving, same_running, same) = leave_all b.leaving b refl in
      let steps = append-Steps to_a (append-Steps to_b to_t) in
      let v = Reach-IsCounted (Reach-Steps reached steps) in
      let running = same_running ∙ none_running in
      let accepting = same ∙ same_accepting ∙ none_accepting in
      (
        t,
        steps,
        record {
          none_accepting = accepting;
          none_running = running;
          none_leaving = none_leaving;
          no_connections = unserved t t.connections running none_leaving v.served;
          gauge_left = omega (arith, v.gauge, ap length accepting, ap length running);
        },
      )
