-- ===== src/Services/SessionStore.antt =====
-- app/services/session_store.py: InMemorySessionStore. The lock makes each operation one step. Time
-- is time.monotonic() in seconds.
pub mod Index
pub mod Revocation
pub mod Tokens
pub mod Items
pub mod Contract
pub mod Refinement
use secure_messenger.Prelude.{
  leb, ◌==◌, if◌then◌else◌, find, any, update_where, delete_where, Text, ℕ, ◌+◌, Bool, ◌&&◌, Option,
  none, some, List, [], ◌∷◌, ◌++◌,
}

pub record SessionData : Type 0 where
  pub user_id : ℕ
  pub device_id : ℕ

-- An item of `_tokens`.
pub record TokenEntry : Type 0 where
  pub key : ℕ
  pub session : SessionData
  pub expires_at : ℕ

-- A member of one of the sets in `_device_keys`.
pub record DeviceKey : Type 0 where
  pub device_id : ℕ
  pub key : ℕ

pub record SessionStore : Type 0 where
  pub ttl_seconds : ℕ
  pub tokens : List TokenEntry
  pub device_keys : List DeviceKey

abbrev pub has_key : ℕ → TokenEntry → Bool
has_key key e = e.key == key

abbrev pub is_device_key : ℕ → ℕ → DeviceKey → Bool
is_device_key device_id key k = k.device_id == device_id && k.key == key

-- `_tokens[key] = (session, expires_at)`: an item keeps its place.
unfoldable pub set_token : TokenEntry → List TokenEntry → List TokenEntry
set_token e es =
    if any (has_key e.key) es then update_where (has_key e.key) (λ _. e) es else es ++ e ∷ []

-- `_device_keys.setdefault(device_id, set()).add(key)`
unfoldable pub add_device_key : DeviceKey → List DeviceKey → List DeviceKey
add_device_key k ks = if any (is_device_key k.device_id k.key) ks then ks else ks ++ k ∷ []

-- `_tokens.pop(key, None)`, then the key is discarded from the set of the device.
unfoldable pub forget : ℕ → ℕ → SessionStore → SessionStore
forget key device_id s = record s {
  tokens = delete_where (has_key key) s.tokens;
  device_keys = delete_where (is_device_key device_id key) s.device_keys;
}

-- The branches of `resolve` on the item of the key.
unfoldable pub resolve_entry :
    ℕ → ℕ → Option TokenEntry → SessionStore → Option SessionData × SessionStore
unfolding forget
resolve_entry key now none s = (none, s)
resolve_entry key now (some e) s =
    if leb e.expires_at now then (none, forget key e.session.device_id s) else (some e.session, s)

unfoldable pub revoke_entry : ℕ → Option TokenEntry → SessionStore → SessionStore
unfolding forget
revoke_entry key none s = s
revoke_entry key (some e) s = forget key e.session.device_id s

-- The keys in the set of the device are removed from `_tokens`, and the set from `_device_keys`.
unfoldable pub revoke_device : ℕ → SessionStore → SessionStore
revoke_device device_id s = record s {
  tokens = delete_where (λ e. any (is_device_key device_id e.key) s.device_keys) s.tokens;
  device_keys = delete_where (λ k. k.device_id == device_id) s.device_keys;
}

-- `sha256` is the key of a token: f"session:{sha256(token)}".
module _ (sha256 : Text → ℕ) where
  -- `token` is what secrets.token_urlsafe returns.
  unfoldable pub issue : Text → ℕ → ℕ → ℕ → SessionStore → SessionStore
  unfolding set_token add_device_key
  issue token user_id device_id now s = record s {
    tokens = set_token entry s.tokens;
    device_keys =
        add_device_key (record { device_id = device_id; key = sha256 token }) s.device_keys;
  }
    where
      entry : TokenEntry
      entry = record {
        key = sha256 token;
        session = record { user_id = user_id; device_id = device_id };
        expires_at = now + s.ttl_seconds;
      }

  unfoldable pub resolve : Text → ℕ → SessionStore → Option SessionData × SessionStore
  unfolding resolve_entry
  resolve token now s = resolve_entry (sha256 token) now (find (has_key (sha256 token)) s.tokens) s

  unfoldable pub revoke : Text → SessionStore → SessionStore
  unfolding revoke_entry
  revoke token s = revoke_entry (sha256 token) (find (has_key (sha256 token)) s.tokens) s
