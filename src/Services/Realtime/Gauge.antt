-- ===== src/Services/Realtime/Gauge.antt =====
-- The gauge of open sockets and the connection table, in every reachable state.
use secure_messenger.Services.Realtime.Endpoint.{handshake}
use secure_messenger.Services.SessionStore.{SessionData, SessionStore}
use secure_messenger.Model.{Db}
use secure_messenger.Prelude.{
  ◌==◌, Bool-cases, length, any, All, All-append, All-mono, delete_where, All-update_where,
  All-delete_where, Text, ℕ, suc, ◌≡◌, refl, ap, inl, inr, Bool, true, false, ◌||◌, List, [], ◌∷◌,
  ◌++◌, arith, filter, map, zero, some,
}
use secure_messenger.Core.Metrics.{websocket_opened, websocket_closed}
use secure_messenger.Services.Realtime.{
  Connection, has_token, connect, disconnect, disconnect_all, close_device, broadcast, is_recipient,
  is_on_device,
}
use secure_messenger.Services.Realtime.Sockets.{
  no_sockets, endpoint_of, Sockets, finish, Step, opened, accepted, accept_failed, session_ended,
  disconnected, left, pushed, device_closed, Reach, begin, next, is_entry_of, IsServed, IsCounted,
}

length-middle :
    (xs ys : List Connection) (c : Connection) → length (xs ++ c ∷ ys) ≡ suc (length (xs ++ ys))
length-middle [] ys c = refl
length-middle (x ∷ xs) ys c = ap suc (length-middle xs ys c)

any-middle :
    (p : Connection → Bool) (xs ys : List Connection) (c : Connection)
    → any p (xs ++ c ∷ ys) ≡ (p c || any p (xs ++ ys))
any-middle p [] ys c = refl
any-middle p (x ∷ xs) ys c = ground (arith, any-middle p xs ys c)

-- An endpoint that is taken out of a list and is not the one in question.
length_of :
    (xs ys zs : List Connection) (c : Connection)
    → zs ≡ xs ++ c ∷ ys
    → length zs ≡ suc (length (xs ++ ys))
length_of xs ys zs c e = rw e (length-middle xs ys c)

any_of :
    (p : Connection → Bool) (xs ys zs : List Connection) (c : Connection)
    → zs ≡ xs ++ c ∷ ys
    → any p zs ≡ (p c || any p (xs ++ ys))
any_of p xs ys zs c e = rw e (any-middle p xs ys c)

module _ (P : Connection → Type 0) where
  All-connect : (c : Connection) (cs : List Connection) → P c → All P cs → All P (connect c cs)
  unfolding connect
  All-connect c cs h v = elim (Bool-cases (any (has_token c.token) cs)) [
    | inl there ↦ rw there (All-update_where P (has_token c.token) (λ _. c) cs (λ x k. h) v)
    | inr new ↦ rw new (All-append P cs (c ∷ []) v (h, tt))
  ]

  All-disconnect_all :
      (ts : List ℕ) (cs : List Connection) → All P cs → All P (disconnect_all ts cs)
  unfolding disconnect_all disconnect
  All-disconnect_all [] cs v = v
  All-disconnect_all (t ∷ ts) cs v =
      All-disconnect_all ts (delete_where (has_token t) cs) (All-delete_where P (has_token t) cs v)

  All-broadcast :
      (fails : ℕ → Bool) (user_ids : List ℕ) (cs : List Connection)
      → All P cs
      → All P (broadcast fails user_ids cs).1
  unfolding broadcast
  All-broadcast fails user_ids cs v =
      All-disconnect_all
        (map (λ c. c.token) (filter (λ c. fails c.websocket) (filter (is_recipient user_ids) cs)))
        cs v

  All-close_device : (d : ℕ) (cs : List Connection) → All P cs → All P (close_device d cs).1
  unfolding close_device
  All-close_device d cs v =
      All-disconnect_all (map (λ c. c.token) (filter (is_on_device d) cs)) cs v

All-disconnect :
    (P Q : Connection → Type 0) (token : ℕ) (cs : List Connection)
    → ((e : Connection) → (e.token == token) ≡ false → P e → Q e)
    → All P cs
    → All Q (disconnect token cs)
unfolding disconnect
All-disconnect P Q token [] h v = tt
All-disconnect P Q token (e ∷ cs) h (k, v) = elim (Bool-cases (e.token == token)) [
  | inl same ↦ rw same (All-disconnect P Q token cs h v)
  | inr other ↦ rw other (h e other k, All-disconnect P Q token cs h v)
]

finish-IsCounted :
    (s : Sockets) (xs ys : List Connection) (c : Connection)
    → s.running ≡ xs ++ c ∷ ys
    → IsCounted s
    → IsCounted (finish (xs ++ ys) c s)
unfolding finish websocket_closed
finish-IsCounted s xs ys c e v = record {
  gauge = omega (arith, v.gauge, length_of xs ys s.running c e);
  served =
      All-mono (IsServed s) _ s.connections
        (λ x (h : IsServed s x). ground (arith, h, any_of (is_entry_of x) xs ys s.running c e))
        v.served;
}

left-served :
    (s : Sockets) (xs ys : List Connection) (c x : Connection)
    → s.leaving ≡ xs ++ c ∷ ys
    → (x.token == c.token) ≡ false
    → IsServed s x
    → (any (is_entry_of x) s.running || any (is_entry_of x) (xs ++ ys)) ≡ true
left-served s xs ys c x e other h =
    ground (arith, h, other, any_of (is_entry_of x) xs ys s.leaving c e)

module _ {sha256 token_id : Text → ℕ} where
  Step-IsCounted : {s t : Sockets} → Step sha256 token_id s t → IsCounted s → IsCounted t
  unfolding websocket_opened
  Step-IsCounted (opened s header now db store websocket admitted h) v = record {
    gauge = omega (arith, v.gauge);
    served = v.served;
  }
  Step-IsCounted (accepted s xs ys c e) v = record {
    gauge = omega (arith, v.gauge, length_of xs ys s.accepting c e);
    served = All-connect _ c s.connections (ground arith) (
        All-mono (IsServed s) _ s.connections (λ x (h : IsServed s x). ground (arith, h)) v.served);
  }
  Step-IsCounted (accept_failed s xs ys c e) v = record {
    gauge = omega (arith, v.gauge, length_of xs ys s.accepting c e);
    served = v.served;
  }
  Step-IsCounted (session_ended s xs ys c token now store e _ _) v = finish-IsCounted s xs ys c e v
  Step-IsCounted (disconnected s xs ys c e) v = finish-IsCounted s xs ys c e v
  Step-IsCounted (left s xs ys c e) v = record {
    gauge = v.gauge;
    served =
        All-disconnect (IsServed s) _ c.token s.connections
          (λ x other h. left-served s xs ys c x e other h) v.served;
  }
  Step-IsCounted (pushed s fails user_ids) v = record {
    gauge = v.gauge;
    served = All-broadcast (IsServed s) fails user_ids s.connections v.served;
  }
  Step-IsCounted (device_closed s device_id) v = record {
    gauge = v.gauge;
    served = All-close_device (IsServed s) device_id s.connections v.served;
  }

  -- However the tasks interleave, the gauge counts the endpoints that are open and those that
  -- `accept` ended, and every entry of the connection table belongs to an endpoint that has not
  -- left yet.
  pub Reach-IsCounted : {s : Sockets} → Reach sha256 token_id s → IsCounted s
  Reach-IsCounted begin = record { gauge = refl; served = tt }
  Reach-IsCounted (next before step) = Step-IsCounted step (Reach-IsCounted before)

-- A state without endpoints in which the gauge is at `n`.
pub record IsLeaked (sha256 token_id : Text → ℕ) (n : ℕ) : Type 0 where
  pub state : Sockets
  pub reached : Reach sha256 token_id state
  pub none_accepting : state.accepting ≡ []
  none_running : state.running ≡ []
  none_leaving : state.leaving ≡ []
  pub gauge_at : state.metrics.websocket_connections ≡ n

-- If the handshake can admit a client at all, the gauge can be at any number while no endpoint is
-- open: each `accept` that fails after the handshake leaves it one higher for good.
pub gauge_leaks :
    (sha256 token_id : Text → ℕ) (header : Text) (now : ℕ) (db : Db) (store : SessionStore)
    (admitted : Text × SessionData)
    → (handshake sha256 header now db store).0 ≡ some admitted
    → (n : ℕ) → IsLeaked sha256 token_id n
unfolding websocket_opened
gauge_leaks sha256 token_id header now db store admitted h zero = record {
  state = no_sockets;
  reached = begin;
  none_accepting = refl;
  none_running = refl;
  none_leaving = refl;
  gauge_at = refl;
}
gauge_leaks sha256 token_id header now db store admitted h (suc n) =
    let old = gauge_leaks sha256 token_id header now db store admitted h n in
    let c = endpoint_of token_id 0 admitted in
    record {
      state = record old.state {
        accepting = [];
        aborted = suc old.state.aborted;
        metrics = websocket_opened old.state.metrics;
      };
      reached =
          next (next old.reached (opened old.state header now db store 0 admitted h))
            (accept_failed _ [] [] c (ap (λ xs. c ∷ xs) old.none_accepting));
      none_accepting = refl;
      none_running = old.none_running;
      none_leaving = old.none_leaving;
      gauge_at = ap suc old.gauge_at;
    }
