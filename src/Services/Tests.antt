-- ===== src/Services/Tests.antt =====
-- Small runs of the services, and the theorems at concrete inputs.
use secure_messenger.Services.Realtime.Replaced.{second_socket_is_lost}
use secure_messenger.Services.RateLimit.ClockWindows.{redis_passes-le-maximum}
use secure_messenger.Services.RateLimit.Samples.{
  mini_counters, empty_counters, mini_counters-CounterLaws,
}
use secure_messenger.Services.RateLimit.RedisCounters.{redis_passes, redis_check}
use secure_messenger.Services.Realtime.Drain.{Steps, IsDrained, sockets_drain}
use secure_messenger.Services.Realtime.Gauge.{Reach-IsCounted, gauge_leaks, IsLeaked}
use secure_messenger.Services.Realtime.Sockets.{
  endpoint_of, no_sockets, Reach, begin, next, opened, accepted, IsCounted, Sockets,
}
use secure_messenger.Services.Realtime.Endpoint.{handshake}
use secure_messenger.Core.Metrics.{websocket_opened, no_metrics}
use secure_messenger.Queries.{get_user, get_device}
use secure_messenger.Model.Samples.{small}
use secure_messenger.Prelude.{
  ◌==◌, Text, codes, ℕ, ◌≤◌, ◌≡◌, refl, true, false, none, some, List, [], ◌∷◌, arith, starts_with,
  strip, find, some_inj, ap,
}
use secure_messenger.Services.SessionStore.{
  SessionStore, revoke_device, issue, resolve, SessionData,
}
use secure_messenger.Services.SessionStore.Revocation.{
  IsConsistent, StoreCall, issue_call, resolve_call, revoke_device_call, run_call, Calls, no_call,
  then_call, Calls-IsConsistent, revoke_device_ends_sessions,
}
use secure_messenger.Services.Realtime.{Connection, has_token, connect, disconnect, broadcast}
use secure_messenger.Services.Realtime.Delivery.{broadcast-delete}
use secure_messenger.Services.RateLimit.{RateLimiter, check, Window}
use secure_messenger.Services.RateLimit.Windows.{Check, passes, passes-le-maximum, IsClosed}
use secure_messenger.Services.SessionStore.Contract.{call_api, answers, no_grants, contract, Admits}
use secure_messenger.Services.SessionStore.Refinement.{
  in_memory, empty_memory, in_memory_keeps_contract,
}
use secure_messenger.Services.RedisStore.{redis_store}
use secure_messenger.Services.RedisStore.Refinement.{redis_store_keeps_contract}
use secure_messenger.Services.RedisStore.Samples.{empty_redis, mini, mini-RedisLaws}

abbrev first_code : Text → ℕ
first_code [] = 0
first_code (c ∷ cs) = c

abbrev empty_store : SessionStore
empty_store = record { ttl_seconds = 100; tokens = []; device_keys = [] }

-- One token for device 7, another for device 8.
abbrev two_tokens : SessionStore
two_tokens = issue first_code (codes "b") 1 8 5 (issue first_code (codes "a") 1 7 5 empty_store)

issued-Calls : Calls first_code (λ _. true) empty_store two_tokens
unfolding run_call
issued-Calls =
    then_call (then_call no_call (issue_call (codes "a") 1 7) 5 refl) (issue_call (codes "b") 1 8) 5
      refl

two_tokens-IsConsistent : IsConsistent two_tokens
two_tokens-IsConsistent = Calls-IsConsistent refl issued-Calls

revoke_device_ends_sessions_example : (8 == 7) ≡ false
unfolding resolve issue revoke_device
revoke_device_ends_sessions_example =
    revoke_device_ends_sessions first_code 7 two_tokens (revoke_device 7 two_tokens) (codes "b") 9
      (record { user_id = 1; device_id = 8 }) two_tokens-IsConsistent no_call refl

abbrev socket : ℕ → ℕ → ℕ → ℕ → Connection
socket t u d w = record { token = t; user_id = u; device_id = d; websocket = w }

abbrev three_sockets : List Connection
three_sockets = socket 1 1 7 11 ∷ socket 2 1 8 12 ∷ socket 3 2 9 13 ∷ []

second_socket_is_lost_example :
    let both = connect (socket 1 1 7 15) (connect (socket 1 1 7 11) []) in
    (both ≡ connect (socket 1 1 7 15) [])
    × ((find (has_token 1) both ≡ some (socket 1 1 7 15)) × (disconnect 1 both ≡ disconnect 1 []))
second_socket_is_lost_example = second_socket_is_lost (socket 1 1 7 11) (socket 1 1 7 15) [] refl

broadcast-delete_example :
    broadcast (λ w. w == 12) (1 ∷ []) three_sockets
    ≡ (11 ∷ [], socket 1 1 7 11 ∷ socket 3 2 9 13 ∷ [])
broadcast-delete_example =
    broadcast-delete (λ w. w == 12) (1 ∷ []) three_sockets (refl, (refl, (refl, tt)))

-- The window of the key 1 is full, and ends at 5.
abbrev ended : Window
ended = record { key = 1; count = 2; expires = 5 }

abbrev limiter : RateLimiter
limiter = record { limit = 2; window_seconds = 60; counts = ended ∷ [] }

limiter-IsClosed : IsClosed 1 5 limiter
limiter-IsClosed w found = omega (arith, ap (λ (x : Window). x.expires) (some_inj found))

abbrev at : ℕ → Check
at t = record { key = 1; now = t }

-- Two of three calls pass.
two_pass : passes 1 (λ _. none) (at 5 ∷ at 6 ∷ at 7 ∷ []) limiter ≡ 2
unfolding passes check
two_pass = refl

passes-le-maximum_example : passes 1 (λ _. none) (at 5 ∷ at 6 ∷ at 7 ∷ []) limiter ≤ 2
passes-le-maximum_example =
    passes-le-maximum 1 (λ _. none) (at 5 ∷ at 6 ∷ at 7 ∷ []) 5 limiter limiter-IsClosed
      ((omega arith, omega arith), ((omega arith, omega arith), ((omega arith, omega arith), tt)))

-- The first two calls of the window 0 pass with Redis, and one of the window 1.
mini_two_pass :
    redis_passes mini_counters 2 60 1 0 (λ _. none) (at 5 ∷ at 6 ∷ at 7 ∷ at 61 ∷ []) empty_counters
    ≡ 2
unfolding redis_passes redis_check
mini_two_pass = refl

redis_passes-le-maximum_example :
    redis_passes mini_counters 2 60 1 0 (λ _. none) (at 5 ∷ at 6 ∷ at 7 ∷ at 61 ∷ []) empty_counters
    ≤ 2
redis_passes-le-maximum_example =
    redis_passes-le-maximum mini_counters mini_counters-CounterLaws 2 60 (omega arith) 1 0 0
      (λ _. none) (at 5 ∷ at 6 ∷ at 7 ∷ at 61 ∷ []) empty_counters
      (omega arith, (omega arith, (omega arith, (omega arith, tt))))

-- One token for device 7, one for device 8; then device 7 is revoked.
abbrev revoking : List (StoreCall × ℕ)
revoking =
    (issue_call (codes "a") 1 7, 5)
    ∷ (issue_call (codes "b") 1 8, 6)
    ∷ (revoke_device_call 7, 7)
    ∷ (resolve_call (codes "a"), 8)
    ∷ (resolve_call (codes "b"), 9)
    ∷ []

revoking-Admits : Admits first_code 100 5 revoking no_grants
unfolding call_api contract
revoking-Admits = (
  omega arith,
  refl,
  (omega arith, refl, (omega arith, tt, (omega arith, tt, (omega arith, tt, tt)))),
)

in_memory_keeps_contract_example :
    answers (in_memory first_code) revoking (empty_memory 100)
    ≡ answers (contract first_code 100) revoking no_grants
in_memory_keeps_contract_example =
    in_memory_keeps_contract first_code 100 5 revoking revoking-Admits

redis_store_keeps_contract_example :
    answers (redis_store mini first_code 100) revoking empty_redis
    ≡ answers (contract first_code 100) revoking no_grants
redis_store_keeps_contract_example =
    redis_store_keeps_contract mini mini-RedisLaws first_code 100 empty_redis 5 revoking
      (record { no_token = λ key t. refl; no_member = λ d t. refl }) (omega arith) revoking-Admits

contract_run :
    answers (contract first_code 100) revoking no_grants
    ≡ none ∷ none ∷ none ∷ none ∷ some (record { user_id = 1; device_id = 8 }) ∷ []
unfolding answers call_api contract
contract_run = refl

abbrev alices_store : SessionStore
alices_store = issue first_code (codes "a") 1 1 5 empty_store

abbrev alices_session : Text × SessionData
alices_session = (codes "a", record { user_id = 1; device_id = 1 })

alice_admitted :
    (handshake first_code (codes "json, bearer.a") 9 small alices_store).0 ≡ some alices_session
unfolding handshake issue resolve get_user get_device starts_with strip
alice_admitted = refl

abbrev alices_socket : Connection
alices_socket = endpoint_of first_code 11 alices_session

alice_Reach : Reach first_code first_code (record no_sockets {
  running = alices_socket ∷ [];
  connections = alices_socket ∷ [];
  metrics = websocket_opened no_metrics;
})
unfolding connect
alice_Reach =
    next
      (next begin (
        opened no_sockets (codes "json, bearer.a") 9 small alices_store 11 alices_session
          alice_admitted))
      (accepted _ [] [] alices_socket refl)

Reach-IsCounted_example : IsCounted (record no_sockets {
  running = alices_socket ∷ [];
  connections = alices_socket ∷ [];
  metrics = websocket_opened no_metrics;
})
Reach-IsCounted_example = Reach-IsCounted alice_Reach

gauge_leaks_example : IsLeaked first_code first_code 3
gauge_leaks_example =
    gauge_leaks first_code first_code (codes "json, bearer.a") 9 small alices_store alices_session
      alice_admitted 3

sockets_drain_example :
    (t : Sockets) × Steps first_code first_code
      (record no_sockets {
        running = alices_socket ∷ [];
        connections = alices_socket ∷ [];
        metrics = websocket_opened no_metrics;
      })
      t
    × IsDrained t
sockets_drain_example = sockets_drain first_code first_code alice_Reach
