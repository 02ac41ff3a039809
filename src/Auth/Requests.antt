-- ===== src/Auth/Requests.antt =====
-- app/routers/auth.py: the requests on tokens as a whole, with the rate limiter, the rows and the
-- session store. `now` is the time of the rows, `clock` the monotonic clock of the stores.
use secure_messenger.Prelude.{if◌then◌else◌, Text, ℕ, Option, some}
use secure_messenger.Model.{Db}
use secure_messenger.Model.Accounts.{Device}
use secure_messenger.Http.{status, Result, ok, err, handle}
use secure_messenger.Services.SessionStore.{issue, revoke}
use secure_messenger.Services.RateLimit.{check}
use secure_messenger.Auth.Passwords.{Hasher}
use secure_messenger.Auth.Tokens.{Credentials, Fresh, login, refresh, logout_refresh}
use secure_messenger.Auth.Dependencies.{AuthState}

-- The device that the tokens in the answer are for.
abbrev pub Outcome : Type 0
Outcome = Result Device × Db × AuthState

-- The end of `_issue_tokens`: an access token for the user and the device. `token` is what
-- secrets.token_urlsafe returns.
unfoldable pub issue_access : (Text → ℕ) → Text → ℕ → Result Device → Db → AuthState → Outcome
issue_access sha256 token clock (err e) db state = (err e, db, state)
issue_access sha256 token clock (ok d) db state = (
  ok d,
  db,
  record state { session_store = issue sha256 token d.user_id d.id clock state.session_store },
)

-- f"login:{client_host}:{login.strip().lower()}" is `key`.
unfoldable pub login_request :
    (Text → ℕ) → Hasher → Fresh → Credentials → ℕ → Text → ℕ → ℕ → Db → AuthState → Outcome
unfolding issue_access
login_request sha256 h f c key token now clock db state =
    let (passed, limiter) = check key (some 10) clock state.rate_limiter in
    let counted : AuthState = record state { rate_limiter = limiter } in
    let (r, after) = handle (login h f c now) db in
    if passed
    then issue_access sha256 token clock r after counted
    else (err (status 429), db, counted)

unfoldable pub refresh_request :
    (Text → ℕ) → Fresh → Option ℕ → Text → ℕ → ℕ → Db → AuthState → Outcome
unfolding issue_access
refresh_request sha256 f sent token now clock db state =
    let (r, after) = handle (refresh f sent now) db in issue_access sha256 token clock r after state

-- `access` is the Bearer token, `sent` the digest of the refresh token, if one came along.
unfoldable pub logout_request : (Text → ℕ) → Text → Option ℕ → ℕ → Db → AuthState → Db × AuthState
logout_request sha256 access sent now db state = (
  (handle (logout_refresh sent now) db).1,
  record state { session_store = revoke sha256 access state.session_store },
)
