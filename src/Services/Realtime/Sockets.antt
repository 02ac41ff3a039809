-- ===== src/Services/Realtime/Sockets.antt =====
-- The endpoints, the connection manager and the gauge of app/core/metrics.py together: what any
-- interleaving of their steps reaches.
use secure_messenger.Prelude.{
  ◌==◌, length, any, All, Text, ℕ, suc, ◌+◌, ◌≡◌, Bool, true, ◌&&◌, ◌||◌, some, List, [], ◌∷◌, ◌++◌,
}
use secure_messenger.Model.{Db}
use secure_messenger.Core.Metrics.{TechnicalMetrics, no_metrics, websocket_opened, websocket_closed}
use secure_messenger.Services.SessionStore.{SessionData, SessionStore}
use secure_messenger.Services.Realtime.{Connection, connect, disconnect, close_device, broadcast}
use secure_messenger.Services.Realtime.Endpoint.{handshake, session_revoked, receive}

-- The endpoints by where they are: between `websocket_opened` and the end of `connect`, in the
-- receive loop, and between `websocket_closed` and the end of `disconnect`. `aborted` counts the
-- endpoints that `accept` ended with an exception.
pub record Sockets : Type 0 where
  pub accepting : List Connection
  pub running : List Connection
  pub leaving : List Connection
  pub aborted : ℕ
  pub connections : List Connection
  pub metrics : TechnicalMetrics

abbrev pub no_sockets : Sockets
no_sockets = record {
  accepting = [];
  running = [];
  leaving = [];
  aborted = 0;
  connections = [];
  metrics = no_metrics;
}

-- `websocket` and what the handshake found; tokens of the connection table are known by a number.
abbrev pub endpoint_of : (Text → ℕ) → ℕ → Text × SessionData → Connection
endpoint_of token_id websocket (token, x) = record {
  token = token_id token;
  user_id = x.user_id;
  device_id = x.device_id;
  websocket = websocket;
}

-- The endpoint leaves the receive loop: `finally` counts it first.
unfoldable pub finish : List Connection → Connection → Sockets → Sockets
unfolding websocket_closed
finish others c s = record s {
  running = others;
  leaving = c ∷ s.leaving;
  metrics = websocket_closed s.metrics;
}

module _ (sha256 token_id : Text → ℕ) where
  -- One step of one task. The rows and the session store may be anything at each step.
  pub data Step : Sockets → Sockets → Type 0 where
    -- The handshake admits the socket, which is counted.
    opened :
        (s : Sockets) (header : Text) (now : ℕ) (db : Db) (store : SessionStore) (websocket : ℕ)
        (admitted : Text × SessionData)
        → (handshake sha256 header now db store).0 ≡ some admitted
        → Step s (record s {
          accepting = endpoint_of token_id websocket admitted ∷ s.accepting;
          metrics = websocket_opened s.metrics;
        })
    -- `accept` succeeds, and the connection is entered.
    accepted :
        (s : Sockets) (xs ys : List Connection) (c : Connection)
        → s.accepting ≡ xs ++ c ∷ ys
        → Step s (record s {
          accepting = xs ++ ys;
          running = c ∷ s.running;
          connections = connect c s.connections;
        })
    -- `accept` raises: the endpoint ends outside of its `try`.
    accept_failed :
        (s : Sockets) (xs ys : List Connection) (c : Connection)
        → s.accepting ≡ xs ++ c ∷ ys
        → Step s (record s { accepting = xs ++ ys; aborted = suc s.aborted })
    -- A message of a client whose session is gone.
    session_ended :
        (s : Sockets) (xs ys : List Connection) (c : Connection) (token : Text) (now : ℕ)
        (store : SessionStore)
        → s.running ≡ xs ++ c ∷ ys
        → token_id token ≡ c.token
        → (receive sha256 token now store).0 ≡ session_revoked
        → Step s (finish (xs ++ ys) c s)
    -- The client, or a `close` of the connection manager, ends the transport.
    disconnected :
        (s : Sockets) (xs ys : List Connection) (c : Connection)
        → s.running ≡ xs ++ c ∷ ys
        → Step s (finish (xs ++ ys) c s)
    -- `disconnect` gets the lock.
    left :
        (s : Sockets) (xs ys : List Connection) (c : Connection)
        → s.leaving ≡ xs ++ c ∷ ys
        → Step s (record s { leaving = xs ++ ys; connections = disconnect c.token s.connections })
    -- A request broadcasts an event.
    pushed :
        (s : Sockets) (fails : ℕ → Bool) (user_ids : List ℕ)
        → Step s (record s { connections = (broadcast fails user_ids s.connections).1 })
    -- A request revokes a device.
    device_closed :
        (s : Sockets) (device_id : ℕ)
        → Step s (record s { connections = (close_device device_id s.connections).1 })

  pub data Reach : Sockets → Type 0 where
    begin : Reach no_sockets
    next : {s t : Sockets} → Reach s → Step s t → Reach t

-- The endpoint of an entry of the connection table.
abbrev pub is_entry_of : Connection → Connection → Bool
is_entry_of e c = c.token == e.token && c.websocket == e.websocket

abbrev pub IsServed : Sockets → Connection → Type 0
IsServed s e = (any (is_entry_of e) s.running || any (is_entry_of e) s.leaving) ≡ true

-- The gauge counts the endpoints that are open, and those that `accept` ended, and every entry of
-- the connection table belongs to an endpoint that has not yet left.
pub record IsCounted (s : Sockets) : Type 0 where
  pub gauge : s.metrics.websocket_connections ≡ length s.accepting + length s.running + s.aborted
  pub served : All (IsServed s) s.connections
