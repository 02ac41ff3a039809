-- ===== src/Services/SessionStore/Items.antt =====
-- The items of the session store by their keys, and its sets of keys, after each update.
use secure_messenger.Prelude.{
  ◌==◌, if◌then◌else◌, Bool-cases, Option-cases, find, any, delete_where, Text, ℕ, ◌+◌, ◌≡◌, refl,
  ap, inl, inr, Bool, false, ◌&&◌, ◌||◌, not, Option, none, some, List, [], ◌∷◌, ◌++◌, arith,
}
use secure_messenger.Services.SessionStore.{
  TokenEntry, DeviceKey, SessionStore, has_key, is_device_key, add_device_key, forget, revoke_entry,
  revoke_device, issue, revoke,
}
use secure_messenger.Services.SessionStore.Tokens.{
  find-set_token, find-delete_other, find-revoke_entry,
}

abbrev pub grant_of : ℕ → ℕ → ℕ → ℕ → TokenEntry
grant_of key u d expires_at = record {
  key = key;
  session = record { user_id = u; device_id = d };
  expires_at = expires_at;
}

abbrev pub is_of : ℕ → Option TokenEntry → Bool
is_of d none = false
is_of d (some e) = e.session.device_id == d

-- The item of a key.
abbrev pub item : ℕ → SessionStore → Option TokenEntry
item key s = find (has_key key) s.tokens

-- The set of a device holds the keys of its tokens and no others.
abbrev pub IsExact : SessionStore → Type 0
IsExact s = (key d : ℕ) → any (is_device_key d key) s.device_keys ≡ is_of d (item key s)

pub find-delete_keys :
    (q : ℕ → Bool) (key : ℕ) (es : List TokenEntry)
    → find (has_key key) (delete_where (λ e. q e.key) es)
      ≡ (if q key then none else find (has_key key) es)
find-delete_keys q key [] = ground arith
find-delete_keys q key (e ∷ es) =
    ground (arith, λ (h : e.key ≡ key). ap q h, find-delete_keys q key es)

any-append_key :
    (d key : ℕ) (j : DeviceKey) (ks : List DeviceKey)
    → any (is_device_key d key) (ks ++ j ∷ [])
      ≡ (is_device_key d key j || any (is_device_key d key) ks)
any-append_key d key j [] = refl
any-append_key d key j (k ∷ ks) = ground (arith, any-append_key d key j ks)

pub any-add_device_key :
    (d key : ℕ) (j : DeviceKey) (ks : List DeviceKey)
    → any (is_device_key d key) (add_device_key j ks)
      ≡ (is_device_key d key j || any (is_device_key d key) ks)
unfolding add_device_key
any-add_device_key d key j ks = elim (Bool-cases (any (is_device_key j.device_id j.key) ks)) [
  | inl there ↦ rw there (ground (arith, there, same_key (j.device_id) (j.key)))
  | inr absent ↦ rw absent (any-append_key d key j ks)
]
  where
    same_key :
        (d' key' : ℕ)
        → d' ≡ d
        → key' ≡ key
        → any (is_device_key d' key') ks ≡ any (is_device_key d key) ks
    same_key d' key' p q = rw p (rw q refl)

pub any-discard :
    (d key d' key' : ℕ) (ks : List DeviceKey)
    → any (is_device_key d key) (delete_where (is_device_key d' key') ks)
      ≡ (not (d' == d && key' == key) && any (is_device_key d key) ks)
any-discard d key d' key' [] = ground arith
any-discard d key d' key' (k ∷ ks) = ground (arith, any-discard d key d' key' ks)

pub any-drop :
    (d key d' : ℕ) (ks : List DeviceKey)
    → any (is_device_key d key) (delete_where (λ k. k.device_id == d') ks)
      ≡ (not (d' == d) && any (is_device_key d key) ks)
any-drop d key d' [] = ground arith
any-drop d key d' (k ∷ ks) = ground (arith, any-drop d key d' ks)

discard-is_of :
    (key other d : ℕ) (e : TokenEntry) (o : Option TokenEntry)
    → (key ≡ other → is_of d o ≡ (e.session.device_id == d))
    → (not (e.session.device_id == d && key == other) && is_of d o)
      ≡ is_of d (if key == other then none else o)
discard-is_of key other d e none h = ground arith
discard-is_of key other d e (some x) h = ground (arith, h)

pub forget-IsExact :
    (key : ℕ) (e : TokenEntry) (s : SessionStore)
    → item key s ≡ some e
    → IsExact s
    → IsExact (forget key e.session.device_id s)
unfolding forget
forget-IsExact key e s h v = λ other d.
    rw (any-discard d other e.session.device_id key s.device_keys) (
      rw (find-delete_other key other s.tokens) (
        rw (v other d) (
          discard-is_of key other d e (item other s)
            λ (same : key ≡ other). rw⁻¹ same (ap (is_of d) h))))

pub item-forget :
    (key d other : ℕ) (s : SessionStore)
    → item other (forget key d s) ≡ (if key == other then none else item other s)
unfolding forget
item-forget key d other s = find-delete_other key other s.tokens

pub item-issue :
    (sha256 : Text → ℕ) (token : Text) (u d now other : ℕ) (s : SessionStore)
    → item other (issue sha256 token u d now s) ≡ (
        if sha256 token == other
        then some (grant_of (sha256 token) u d (now + s.ttl_seconds))
        else item other s)
unfolding issue
item-issue sha256 token u d now other s =
    find-set_token other (grant_of (sha256 token) u d (now + s.ttl_seconds)) s.tokens

added-is_of :
    (key other d : ℕ) (e : TokenEntry) (o : Option TokenEntry)
    → (key ≡ other → o ≡ none)
    → ((e.session.device_id == d && key == other) || is_of d o)
      ≡ is_of d (if key == other then some e else o)
added-is_of key other d e none h = ground arith
added-is_of key other d e (some x) h = ground (arith, h)

pub issue-IsExact :
    (sha256 : Text → ℕ) (token : Text) (u d now : ℕ) (s : SessionStore)
    → item (sha256 token) s ≡ none
    → IsExact s
    → IsExact (issue sha256 token u d now s)
unfolding issue
issue-IsExact sha256 token u d now s new v = λ other dev.
    let e = grant_of (sha256 token) u d (now + s.ttl_seconds) in
    rw (any-add_device_key dev other (record { device_id = d; key = sha256 token }) s.device_keys) (
      rw (find-set_token other e s.tokens) (
        rw (v other dev) (
          added-is_of (sha256 token) other dev e (item other s)
            λ (same : sha256 token ≡ other). rw⁻¹ same new)))

pub item-revoke :
    (sha256 : Text → ℕ) (token : Text) (other : ℕ) (s : SessionStore)
    → item other (revoke sha256 token s) ≡ (if sha256 token == other then none else item other s)
unfolding revoke
item-revoke sha256 token other s = find-revoke_entry (sha256 token) other _ s refl

pub revoke-IsExact :
    (sha256 : Text → ℕ) (token : Text) (s : SessionStore)
    → IsExact s
    → IsExact (revoke sha256 token s)
unfolding revoke revoke_entry
revoke-IsExact sha256 token s v = elim (Option-cases (item (sha256 token) s)) [
  | inl absent ↦ rw absent v
  | inr (e, found) ↦ rw found (forget-IsExact (sha256 token) e s found v)
]

pub revoke-ttl_seconds :
    (sha256 : Text → ℕ) (token : Text) (s : SessionStore)
    → (revoke sha256 token s).ttl_seconds ≡ s.ttl_seconds
unfolding revoke revoke_entry forget
revoke-ttl_seconds sha256 token s = elim (Option-cases (item (sha256 token) s)) [
  | inl absent ↦ rw absent refl
  | inr (e, found) ↦ rw found refl
]

dropped-is_of :
    (d dev : ℕ) (o : Option TokenEntry)
    → (not (d == dev) && is_of dev o) ≡ is_of dev (if is_of d o then none else o)
dropped-is_of d dev none = ground arith
dropped-is_of d dev (some x) = ground arith

-- The keys in the set of the device are those of its items.
pub item-revoke_device :
    (d key : ℕ) (s : SessionStore)
    → IsExact s
    → item key (revoke_device d s) ≡ (if is_of d (item key s) then none else item key s)
unfolding revoke_device
item-revoke_device d key s v =
    rw (find-delete_keys (λ k. any (is_device_key d k) s.device_keys) key s.tokens)
      (rw (v key d) refl)

pub revoke_device-IsExact : (d : ℕ) (s : SessionStore) → IsExact s → IsExact (revoke_device d s)
revoke_device-IsExact d s v = λ key dev. rw (item-revoke_device d key s v) (
    unfold revoke_device in
    rw (any-drop dev key d s.device_keys) (rw (v key dev) (dropped-is_of d dev (item key s))))
