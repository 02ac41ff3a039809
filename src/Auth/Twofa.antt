-- ===== src/Auth/Twofa.antt =====
-- app/twofa.py: Pending2FAStore. Time is in seconds; each method is one step, since it reads the
-- clock right after it took the entry out of the lock.
pub mod Secrets
use secure_messenger.Prelude.{
  ltb, ◌==◌, if◌then◌else◌, find, delete_where, Text, ℕ, ◌+◌, Bool, Option, none, some, List, ◌∷◌,
}

-- An item of `_entries`.
pub record PendingEntry : Type 0 where
  pub user_id : ℕ
  pub secret : Text
  pub created_at : ℕ

pub record Pending2faStore : Type 0 where
  pub ttl : ℕ
  pub entries : List PendingEntry

abbrev pub is_pending_of : ℕ → PendingEntry → Bool
is_pending_of user_id e = e.user_id == user_id

-- `time.time() - entry["created_at"] > self._ttl`
abbrev pub is_expired : ℕ → ℕ → PendingEntry → Bool
is_expired ttl now e = ltb (e.created_at + ttl) now

-- `_entries[user_id] = {...}`
unfoldable pub put : ℕ → Text → ℕ → Pending2faStore → Pending2faStore
put user_id secret now s = record s {
  entries =
      record { user_id = user_id; secret = secret; created_at = now }
      ∷ delete_where (is_pending_of user_id) s.entries;
}

-- The secret of an entry that has not expired.
unfoldable pub live_secret : ℕ → ℕ → Option PendingEntry → Option Text
live_secret ttl now none = none
live_secret ttl now (some e) = if is_expired ttl now e then none else some e.secret

unfoldable pub peek : ℕ → ℕ → Pending2faStore → Option Text
unfolding live_secret
peek user_id now s = live_secret s.ttl now (find (is_pending_of user_id) s.entries)

-- The entry is popped, expired or not.
unfoldable pub take_secret : ℕ → ℕ → Pending2faStore → Option Text × Pending2faStore
unfolding peek
take_secret user_id now s =
    (peek user_id now s, record s { entries = delete_where (is_pending_of user_id) s.entries })

-- One round of `_sweep`: the entries with `created_at < now - ttl` go.
unfoldable pub sweep : ℕ → Pending2faStore → Pending2faStore
sweep now s = record s { entries = delete_where (is_expired s.ttl now) s.entries }
