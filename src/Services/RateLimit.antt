-- ===== src/Services/RateLimit.antt =====
-- app/services/rate_limit.py: RateLimiter without Redis. Time is time.monotonic() in seconds.
pub mod Windows
pub mod RedisCounters
pub mod ClockWindows
pub mod Samples
use secure_messenger.Prelude.{
  leb, ◌==◌, if◌then◌else◌, find, any, count, update_where, ℕ, zero, suc, ◌+◌, Bool, Option, none,
  some, List, [], ◌∷◌, ◌++◌,
}

-- An item of `_counts`.
pub record Window : Type 0 where
  pub key : ℕ
  pub count : ℕ
  pub expires : ℕ

pub record RateLimiter : Type 0 where
  pub limit : ℕ
  pub window_seconds : ℕ
  pub counts : List Window

abbrev pub is_window_of : ℕ → Window → Bool
is_window_of key w = w.key == key

-- `self._counts.get(key, (0, now + self.window_seconds))`
unfoldable pub current_window : ℕ → ℕ → RateLimiter → Window
current_window key now r = elim (find (is_window_of key) r.counts) [
  | none ↦ record { key = key; count = 0; expires = now + r.window_seconds }
  | some w ↦ w
]

-- A window that has ended starts anew; then the call counts.
unfoldable pub next_window : ℕ → ℕ → RateLimiter → Window
unfolding current_window
next_window key now r =
    let w = current_window key now r in
    if leb w.expires now
    then record { key = key; count = 1; expires = now + r.window_seconds }
    else record { key = key; count = suc w.count; expires = w.expires }

-- `self._counts[key] = (count, expires)`: an item keeps its place.
unfoldable pub set_window : Window → List Window → List Window
set_window w ws =
    if any (is_window_of w.key) ws
    then update_where (is_window_of w.key) (λ _. w) ws
    else ws ++ w ∷ []

-- `limit or self.limit`
abbrev pub maximum : Option ℕ → RateLimiter → ℕ
maximum none r = r.limit
maximum (some zero) r = r.limit
maximum (some (suc n)) r = suc n

-- Whether the call passes (otherwise it is refused with 429), and the limiter after it.
unfoldable pub check : ℕ → Option ℕ → ℕ → RateLimiter → Bool × RateLimiter
unfolding next_window set_window
check key limit now r =
    let w = next_window key now r in
    (leb w.count (maximum limit r), record r { counts = set_window w r.counts })
