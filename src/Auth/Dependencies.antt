-- ===== src/Auth/Dependencies.antt =====
-- app/dependencies.py: who a request is from. A Bearer token is resolved by the session store, the
-- rate limiter counts the call, and the rows of the device and the user decide.
pub mod Sound
use secure_messenger.Prelude.{
  if◌then◌else◌, is_none, is_some, drop, Text, codes, starts_with, ℕ, Bool, true, false, ◌&&◌, ◌||◌,
  not, Option, none, some,
}
use secure_messenger.Model.{Db}
use secure_messenger.Model.Accounts.{
  User, Device, is_active_status, is_pending_status, is_revoked_status,
}
use secure_messenger.Http.{status, Result, ok, err}
use secure_messenger.Queries.{get_user, get_device}
use secure_messenger.Services.SessionStore.{SessionStore, resolve, revoke}
use secure_messenger.Services.RateLimit.{RateLimiter, check}

-- The part of `app.state` that the dependencies use.
pub record AuthState : Type 0 where
  pub session_store : SessionStore
  pub rate_limiter : RateLimiter

abbrev pub is_usable_user : Option User → Bool
is_usable_user none = false
is_usable_user (some u) = u.is_active && not u.is_placeholder

-- Whether the device exists, is not revoked and, unless it waits for approval, may act.
abbrev pub is_current : Option Device → Bool
is_current none = false
is_current (some d) = is_none d.revoked_at && not (is_revoked_status d.status)

-- What `get_current_device` decides on the rows: an answer, and whether the token is revoked.
unfoldable pub current_device : Option Device → Option User → Result Device × Bool
current_device none user = (err (status 401), true)
current_device (some d) user =
    if is_current (some d) && is_usable_user user then (ok d, false) else (err (status 401), true)

abbrev pub is_waiting : Device → Bool
is_waiting d = is_pending_status d.status && is_none d.revoked_at

-- What `get_current_user` decides on the rows.
unfoldable pub current_user : Option Device → Option User → Result User × Bool
current_user none user = (err (status 401), true)
current_user (some d) user =
    if is_waiting d
    then (err (status 403), false)
    else if is_some d.revoked_at || not (is_active_status d.status)
    then (err (status 401), true)
    else elim user [
      | none ↦ (err (status 401), false)
      | some u ↦
          if u.is_active && not u.is_placeholder then (ok u, false) else (err (status 401), false)
    ]

-- The test of `get_active_device` on the device.
unfoldable pub require_active : Result Device → Result Device
require_active (err e) = err e
require_active (ok d) = if is_active_status d.status then ok d else err (status 403)

-- The SHA-256 keys of tokens and the key f"api:device:{id}" of the limiter are parameters.
module _ (sha256 : Text → ℕ) (device_key : ℕ → ℕ) where
  -- After a token was resolved: the call counts, and the rows decide; the decision may revoke the
  -- token.
  unfoldable pub authenticate :
      {A : Type 0}
      → (Option Device → Option User → Result A × Bool)
      → Text
      → ℕ
      → Db
      → AuthState
      → Result A × AuthState
  authenticate decide token now db state =
      let (found, store) = resolve sha256 token now state.session_store in
      elim found [
        | none ↦ (err (status 401), record state { session_store = store })
        | some data_of ↦
            let (passed, limiter) =
              check (device_key data_of.device_id) none now state.rate_limiter in
            if passed
            then (let (r, revoked) =
                  decide (get_device data_of.device_id db) (get_user data_of.user_id db) in
                (
                  r,
                  record {
                    session_store = if revoked then revoke sha256 token store else store;
                    rate_limiter = limiter;
                  },
                ))
            else (err (status 429), record { session_store = store; rate_limiter = limiter })
      ]

  unfoldable pub get_current_device : Text → ℕ → Db → AuthState → Result Device × AuthState
  unfolding authenticate current_device
  get_current_device token now db state = authenticate current_device token now db state

  unfoldable pub get_current_user : Text → ℕ → Db → AuthState → Result User × AuthState
  unfolding authenticate current_user
  get_current_user token now db state = authenticate current_user token now db state

  unfoldable pub get_active_device : Text → ℕ → Db → AuthState → Result Device × AuthState
  unfolding get_current_device require_active
  get_active_device token now db state =
      let (r, after) = get_current_device token now db state in (require_active r, after)

-- "Bearer " and the token: what `get_bearer_token` gives for an Authorization header.
unfoldable pub get_bearer_token : Option Text → Result Text
get_bearer_token none = err (status 401)
get_bearer_token (some header) =
    if starts_with (codes "Bearer ") header then ok (drop 7 header) else err (status 401)
