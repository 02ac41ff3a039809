-- ===== src/Services/Realtime.antt =====
-- app/services/realtime.py: ConnectionManager without Redis, where events stay in the process. The
-- lock makes each look-up or change of `_connections` one step.
pub mod Dict
pub mod Delivery
pub mod Replaced
pub mod Endpoint
pub mod Sockets
pub mod Gauge
pub mod Drain
use secure_messenger.Prelude.{
  ◌==◌, if◌then◌else◌, filter, any, update_where, delete_where, ℕ, Bool, not, List, [], ◌∷◌, ◌++◌,
  map,
}

-- An item of `_connections`; a websocket is known by a number.
pub record Connection : Type 0 where
  pub token : ℕ
  pub user_id : ℕ
  pub device_id : ℕ
  pub websocket : ℕ

abbrev pub has_token : ℕ → Connection → Bool
has_token token c = c.token == token

-- `self._connections[token] = ...`: an item keeps its place.
unfoldable pub connect : Connection → List Connection → List Connection
connect c cs =
    if any (has_token c.token) cs
    then update_where (has_token c.token) (λ _. c) cs
    else cs ++ c ∷ []

-- `self._connections.pop(token, None)`
unfoldable pub disconnect : ℕ → List Connection → List Connection
disconnect token cs = delete_where (has_token token) cs

unfoldable pub disconnect_all : List ℕ → List Connection → List Connection
unfolding disconnect
disconnect_all [] cs = cs
disconnect_all (t ∷ ts) cs = disconnect_all ts (disconnect t cs)

abbrev pub is_on_device : ℕ → Connection → Bool
is_on_device device_id c = c.device_id == device_id

-- `_close_device_local`: each socket is closed, or fails to, and its token is disconnected. The
-- sockets that are closed stand beside the connections that are left.
unfoldable pub close_device : ℕ → List Connection → List ℕ × List Connection
unfolding disconnect_all
close_device device_id cs =
    let recipients = filter (is_on_device device_id) cs in
    (map (λ c. c.websocket) recipients, disconnect_all (map (λ c. c.token) recipients) cs)

abbrev pub is_recipient : List ℕ → Connection → Bool
is_recipient user_ids c = any (λ u. u == c.user_id) user_ids

-- `_broadcast_local`: the sockets that got the payload, and the connections that are left. `fails`
-- says which sockets raise an exception in `send_json`.
unfoldable pub broadcast : (ℕ → Bool) → List ℕ → List Connection → List ℕ × List Connection
unfolding disconnect_all
broadcast fails user_ids cs =
    let recipients = filter (is_recipient user_ids) cs in
    let reached = filter (λ c. not (fails c.websocket)) recipients in
    let stale_tokens = map (λ c. c.token) (filter (λ c. fails c.websocket) recipients) in
    (map (λ c. c.websocket) reached, disconnect_all stale_tokens cs)
