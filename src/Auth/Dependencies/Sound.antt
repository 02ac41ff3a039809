-- ===== src/Auth/Dependencies/Sound.antt =====
-- Who gets past the dependencies.
use mathlib.Core.Path.{subst}
use secure_messenger.Prelude.{
  Bool-cases, is_none, Text, ℕ, ◌≡◌, refl, inl, inr, Bool, true, Option, none, some, arith,
}
use secure_messenger.Model.{Db}
use secure_messenger.Model.Accounts.{User, Device, is_active_status}
use secure_messenger.Http.{ok}
use secure_messenger.Queries.{get_user, get_device}
use secure_messenger.Services.SessionStore.{SessionData, resolve}
use secure_messenger.Auth.Dependencies.{
  AuthState, is_usable_user, current_device, require_active, authenticate, get_current_device,
  get_active_device,
}
use secure_messenger.Services.RateLimit.{check}

-- The rows that a session stands for let its device act.
pub record MayAct (d : Device) (x : SessionData) (db : Db) : Type 0 where
  pub is_its_device : get_device x.device_id db ≡ some d
  pub not_revoked : is_none d.revoked_at ≡ true
  pub active : is_active_status d.status ≡ true
  pub user_usable : is_usable_user (get_user x.user_id db) ≡ true

decided :
    (d : Device) (o : Option Device) (u : Option User)
    → require_active (current_device o u).0 ≡ ok d
    → (o ≡ some d)
      × (is_none d.revoked_at ≡ true)
      × (is_active_status d.status ≡ true)
      × (is_usable_user u ≡ true)
unfolding current_device require_active
decided d none u h = absurd (ground (arith, h))
decided d (some x) u h =
    let same : x ≡ d = ground (arith, h) in
    subst
      (λ y.
        (some x ≡ some y)
        × (is_none y.revoked_at ≡ true)
        × (is_active_status y.status ≡ true)
        × (is_usable_user u ≡ true))
      same (refl, ground (arith, h), ground (arith, h), ground (arith, h))

-- What a decision on the rows answers once the token is resolved and the limiter asked.
answered :
    (sha256 : Text → ℕ) (device_key : ℕ → ℕ) (token : Text) (now : ℕ) (db : Db) (state : AuthState)
    (d : Device) (found : Option SessionData) (passed : SessionData → Bool)
    → (resolve sha256 token now state.session_store).0 ≡ found
    → ((x : SessionData)
        → (check (device_key x.device_id) none now state.rate_limiter).0 ≡ passed x)
    → (get_active_device sha256 device_key token now db state).0 ≡ ok d
    → (x : SessionData) × (found ≡ some x) × MayAct d x db
unfolding get_active_device get_current_device authenticate require_active
answered sha256 device_key token now db state d none passed e f h = absurd (ground (arith, e, h))
answered sha256 device_key token now db state d (some x) passed e f h =
    elim (Bool-cases (passed x)) [
      | inl goes ↦ (
        x,
        refl,
        may_act (
            decided d (get_device x.device_id db) (get_user x.user_id db)
              (ground (arith, e, f x, goes, h))),
      )
      | inr stopped ↦ absurd (ground (arith, e, f x, stopped, h))
    ]
  where
    may_act :
        (get_device x.device_id db ≡ some d)
          × (is_none d.revoked_at ≡ true)
          × (is_active_status d.status ≡ true)
          × (is_usable_user (get_user x.user_id db) ≡ true)
        → MayAct d x db
    may_act (a, b, c, u) = record {
      is_its_device = a;
      not_revoked = b;
      active = c;
      user_usable = u;
    }

-- Where `get_active_device` answers with a device, the token resolves to a session whose device this
-- is, the device is active and not revoked, and the session's user is active and no placeholder.
pub get_active_device-MayAct :
    (sha256 : Text → ℕ) (device_key : ℕ → ℕ) (token : Text) (now : ℕ) (db : Db) (state : AuthState)
    (d : Device)
    → (get_active_device sha256 device_key token now db state).0 ≡ ok d
    → (x : SessionData) × ((resolve sha256 token now state.session_store).0 ≡ some x)
      × MayAct d x db
get_active_device-MayAct sha256 device_key token now db state d h =
    answered sha256 device_key token now db state d _ _ refl (λ x. refl) h
