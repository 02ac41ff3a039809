-- ===== src/Auth/Tests.antt =====
-- Small runs of the authentication requests, and the theorems at concrete inputs.
use secure_messenger.Auth.Twofa.Secrets.{
  PendingCall, put_call, take_call, peek_call, sweep_call, pending_answers, secret_answers,
  no_secrets, pending_answers-secret_answers,
}
use secure_messenger.Prelude.{
  decimal, Text, codes, text_eq, ℕ, ◌≡◌, refl, false, none, some, [], ◌∷◌, ◌++◌, arith, List,
}
use secure_messenger.Model.{Db}
use secure_messenger.Model.Accounts.{Device, RefreshSession}
use secure_messenger.Model.Samples.{phone, small}
use secure_messenger.Http.{status, Result, err, handle}
use secure_messenger.Queries.{get_user, get_device}
use secure_messenger.Services.RateLimit.{check}
use secure_messenger.Services.SessionStore.{SessionData, resolve}
use secure_messenger.Auth.Passwords.{Hasher}
use secure_messenger.Auth.Dependencies.{AuthState, get_active_device}
use secure_messenger.Auth.Dependencies.Sound.{MayAct, get_active_device-MayAct}
use secure_messenger.Auth.Tokens.{Credentials, Fresh, login, refresh}
use secure_messenger.Auth.Tokens.Rotation.{IsUniqueRefresh, refresh_once}
use secure_messenger.Auth.Devices.{Server, revoke_device}
use secure_messenger.Auth.Devices.Rows.{HasDeviceKey}
use secure_messenger.Auth.Devices.Revocation.{RevocationLeaves, revoke_device-RevocationLeaves}
use secure_messenger.Auth.Registration.{available_username, register}
use secure_messenger.Auth.Registration.Search.{FindsFree, available_username-FindsFree}
use secure_messenger.Auth.Registration.Accounts.{Registered, register-Registered}

-- A hash that keeps the password.
abbrev plain : Hasher
plain = record {
  verify = λ hash password. text_eq hash (codes "$argon2id$" ++ password);
  check_needs_rehash = λ hash. false;
  hash = λ password. codes "$argon2id$" ++ password;
  legacy_hash_password = λ password salt. password;
}

abbrev first_code : Text → ℕ
first_code [] = 0
first_code (c ∷ cs) = c

abbrev fresh_ids : ℕ → Fresh
fresh_ids n = record { device_id = n; session_id = n; refresh_hash = n; refresh_ttl = 100 }

abbrev bobs_login : Credentials
bobs_login = record { login = codes "bob"; password = codes "x"; device_name = codes "pad" }

abbrev bobs_session : RefreshSession
bobs_session = record {
  id = 30;
  user_id = 2;
  device_id = 2;
  refresh_token_hash = 31;
  device_name = codes "phone";
  created_at = 0;
  expires_at = 100;
  revoked_at = none;
}

abbrev signed_in : Db
signed_in = record small { refresh_sessions = bobs_session ∷ [] }

signed_in-IsUniqueRefresh : IsUniqueRefresh 31 signed_in
signed_in-IsUniqueRefresh = omega arith

refresh_once_example :
    ◌≡◌ {A = Result Device × Db}
      (handle
        (refresh (fresh_ids 41) (some 31) 9)
        (handle (refresh (fresh_ids 40) (some 31) 6) signed_in).1)
      (err (status 401), (handle (refresh (fresh_ids 40) (some 31) 6) signed_in).1)
unfolding handle refresh get_device get_user
refresh_once_example =
    refresh_once (fresh_ids 40) (fresh_ids 41) 31 6 9 signed_in
      (record (phone 2 2) { last_seen_at = 6 }) refl signed_in-IsUniqueRefresh refl

-- Device 2 with an access token and a socket.
abbrev online : Server
online = record {
  db = signed_in;
  session_store = record {
    ttl_seconds = 100;
    tokens =
        record { key = 98; session = record { user_id = 2; device_id = 2 }; expires_at = 100 } ∷ [];
    device_keys = record { device_id = 2; key = 98 } ∷ [];
  };
  connections = record { token = 98; user_id = 2; device_id = 2; websocket = 5 } ∷ [];
}

online-HasDeviceKey : HasDeviceKey online.db
online-HasDeviceKey = λ i. ground arith

revoke_device-RevocationLeaves_example :
    let (r, after) = revoke_device (λ w. false) (λ w. false) (λ n. n) 2 (phone 2 2) 6 online in
    RevocationLeaves 2 online r after
revoke_device-RevocationLeaves_example =
    revoke_device-RevocationLeaves (λ w. false) (λ w. false) (λ n. n) 2 (phone 2 2) 6 online
      online-HasDeviceKey refl (refl, tt)

abbrev stores : AuthState
stores = record {
  session_store = online.session_store;
  rate_limiter = record { limit = 5; window_seconds = 60; counts = [] };
}

get_active_device-MayAct_example :
    (x : SessionData) × ((resolve first_code (codes "b") 6 stores.session_store).0 ≡ some x)
    × MayAct (phone 2 2) x signed_in
unfolding get_active_device resolve check get_device get_user
get_active_device-MayAct_example =
    get_active_device-MayAct first_code (λ n. n) (codes "b") 6 signed_in stores (phone 2 2) refl

register-Registered_example :
    let (r, after) =
      handle (register plain (λ db. db) (codes "Dora") (codes "longpassword") 7) small in
    Registered plain (λ db. db) (codes "Dora") (codes "longpassword") 7 small r after
register-Registered_example =
    register-Registered plain (λ db. db) (codes "Dora") (codes "longpassword") 7 small

available_username-FindsFree_example :
    FindsFree small.users (available_username (codes "bob") small)
available_username-FindsFree_example = available_username-FindsFree (codes "bob") small

bobs_next : available_username (codes "_B.ob_") small ≡ some (codes "b_ob")
unfolding available_username text_eq
bobs_next = refl

second_bob : available_username (codes "bob") small ≡ some (codes "bob_1")
unfolding available_username text_eq decimal
second_bob = refl

-- The secret of user 1 is taken once; that of user 2 expires and is swept.
abbrev enabling : List (PendingCall × ℕ)
enabling =
    (put_call 1 (codes "s"), 5)
    ∷ (put_call 2 (codes "t"), 5)
    ∷ (peek_call 1, 6)
    ∷ (take_call 1, 7)
    ∷ (take_call 1, 8)
    ∷ (sweep_call, 700)
    ∷ (take_call 2, 701)
    ∷ []

pending_answers-secret_answers_example :
    pending_answers enabling (record { ttl = 600; entries = [] })
    ≡ secret_answers 600 enabling no_secrets
pending_answers-secret_answers_example = pending_answers-secret_answers 600 5 enabling (
  omega arith,
  (omega arith, (omega arith, (omega arith, (omega arith, (omega arith, (omega arith, tt)))))),
)

enabling_run :
    secret_answers 600 enabling no_secrets
    ≡ none ∷ none ∷ some (codes "s") ∷ some (codes "s") ∷ none ∷ none ∷ none ∷ []
unfolding secret_answers
enabling_run = refl
