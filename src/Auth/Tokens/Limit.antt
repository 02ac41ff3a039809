-- ===== src/Auth/Tokens/Limit.antt =====
-- `login`: no user has more than five active devices.
use secure_messenger.Prelude.{ℕ, ◌≤◌, ◌≡◌}
use secure_messenger.Model.{Db}
use secure_messenger.Model.Accounts.{Device}
use secure_messenger.Http.{Result, ok, err}
use secure_messenger.Auth.Tokens.{max_active_devices, active_devices}

-- At most five active devices for each user.
abbrev pub IsLimited : Db → Type 0
IsLimited db = (u : ℕ) → active_devices u db ≤ max_active_devices

-- What a login leaves.
abbrev pub LoginLeaves : Db → Result Device → Db → Type 0
LoginLeaves db (ok d) after = IsLimited db → IsLimited after
LoginLeaves db (err e) after = after ≡ db
