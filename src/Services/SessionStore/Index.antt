-- ===== src/Services/SessionStore/Index.antt =====
-- The two dictionaries of the session store: what an update of both keeps.
use secure_messenger.Prelude.{
  ◌==◌, Bool-cases, any, all, update_where, delete_where, ℕ, ◌≡◌, refl, inl, inr, Bool, true, false,
  not, List, [], ◌∷◌, ◌++◌, arith,
}
use secure_messenger.Services.SessionStore.{
  TokenEntry, DeviceKey, has_key, is_device_key, set_token, add_device_key,
}

-- Every token is in the set of its device.
abbrev pub IsIndexed : List DeviceKey → List TokenEntry → Type 0
IsIndexed ks es = all (λ e. any (is_device_key e.session.device_id e.key) ks) es ≡ true

-- No token is of the device.
abbrev pub IsWithout : ℕ → List TokenEntry → Type 0
IsWithout d es = all (λ e. not (e.session.device_id == d)) es ≡ true

pub any-append_left :
    (p : DeviceKey → Bool) (ks js : List DeviceKey) → any p ks ≡ true → any p (ks ++ js) ≡ true
any-append_left p [] js h = absurd (ground arith)
any-append_left p (k ∷ ks) js h = ground (arith, any-append_left p ks js)

pub any-added :
    (d key : ℕ) (k : DeviceKey) (ks : List DeviceKey)
    → k.device_id ≡ d
    → k.key ≡ key
    → any (is_device_key d key) (ks ++ k ∷ []) ≡ true
any-added d key k [] e f = ground arith
any-added d key k (x ∷ ks) e f = ground (arith, any-added d key k ks e f)

-- A key outside the deleted rows stays.
pub any-delete :
    (d key : ℕ) (q : DeviceKey → Bool) (ks : List DeviceKey)
    → ((k : DeviceKey) → is_device_key d key k ≡ true → q k ≡ false)
    → any (is_device_key d key) (delete_where q ks) ≡ any (is_device_key d key) ks
any-delete d key q [] h = refl
any-delete d key q (k ∷ ks) h = ground (arith, h k, any-delete d key q ks h)

-- More keys do no harm.
pub Indexed-mono :
    (ks js : List DeviceKey) (es : List TokenEntry)
    → ((d key : ℕ) → any (is_device_key d key) ks ≡ true → any (is_device_key d key) js ≡ true)
    → IsIndexed ks es
    → IsIndexed js es
Indexed-mono ks js [] h v = refl
Indexed-mono ks js (e ∷ es) h v =
    ground (arith, h e.session.device_id e.key, Indexed-mono ks js es h)

pub Indexed-update :
    (ks : List DeviceKey) (e : TokenEntry) (key : ℕ) (es : List TokenEntry)
    → any (is_device_key e.session.device_id e.key) ks ≡ true
    → IsIndexed ks es
    → IsIndexed ks (update_where (has_key key) (λ _. e) es)
Indexed-update ks e key [] h v = refl
Indexed-update ks e key (x ∷ es) h v = ground (arith, h, Indexed-update ks e key es h)

pub Indexed-append :
    (ks : List DeviceKey) (e : TokenEntry) (es : List TokenEntry)
    → any (is_device_key e.session.device_id e.key) ks ≡ true
    → IsIndexed ks es
    → IsIndexed ks (es ++ e ∷ [])
Indexed-append ks e [] h v = ground (arith, h)
Indexed-append ks e (x ∷ es) h v = ground (arith, h, Indexed-append ks e es h)

-- Without the tokens of one key, that key is not needed in any set.
pub Indexed-forget :
    (ks : List DeviceKey) (d key : ℕ) (es : List TokenEntry)
    → IsIndexed ks es
    → IsIndexed (delete_where (is_device_key d key) ks) (delete_where (has_key key) es)
Indexed-forget ks d key [] v = refl
Indexed-forget ks d key (e ∷ es) v = ground (
  arith,
  any-delete e.session.device_id e.key (is_device_key d key) ks,
  Indexed-forget ks d key es,
)

-- A key that is not in the set of `d` is of another device.
not_of :
    (ks : List DeviceKey) (d : ℕ) (e : TokenEntry)
    → any (is_device_key e.session.device_id e.key) ks ≡ true
    → any (is_device_key d e.key) ks ≡ false
    → (e.session.device_id == d) ≡ false
not_of [] d e h k = absurd (ground arith)
not_of (x ∷ ks) d e h k = ground (arith, not_of ks d e)

pub Indexed-revoke :
    (ks : List DeviceKey) (d : ℕ) (es : List TokenEntry)
    → IsIndexed ks es
    → IsIndexed
        (delete_where (λ k. k.device_id == d) ks)
        (delete_where (λ e. any (is_device_key d e.key) ks) es)
Indexed-revoke ks d [] v = refl
Indexed-revoke ks d (e ∷ es) v = ground (
  arith,
  not_of ks d e,
  any-delete e.session.device_id e.key (λ k. k.device_id == d) ks,
  Indexed-revoke ks d es,
)

pub revoke-Without :
    (ks : List DeviceKey) (d : ℕ) (es : List TokenEntry)
    → IsIndexed ks es
    → IsWithout d (delete_where (λ e. any (is_device_key d e.key) ks) es)
revoke-Without ks d [] v = refl
revoke-Without ks d (e ∷ es) v = ground (arith, not_of ks d e, revoke-Without ks d es)

add_device_key-has :
    (k : DeviceKey) (ks : List DeviceKey)
    → any (is_device_key k.device_id k.key) (add_device_key k ks) ≡ true
unfolding add_device_key
add_device_key-has k ks = elim (Bool-cases (any (is_device_key k.device_id k.key) ks)) [
  | inl there ↦ rw there there
  | inr absent ↦ rw absent (any-added k.device_id k.key k ks refl refl)
]

add_device_key-keeps :
    (k : DeviceKey) (ks : List DeviceKey) (d key : ℕ)
    → any (is_device_key d key) ks ≡ true
    → any (is_device_key d key) (add_device_key k ks) ≡ true
unfolding add_device_key
add_device_key-keeps k ks d key h = elim (Bool-cases (any (is_device_key k.device_id k.key) ks)) [
  | inl there ↦ rw there h
  | inr absent ↦ rw absent (any-append_left (is_device_key d key) ks (k ∷ []) h)
]

set_token-Indexed :
    (ks : List DeviceKey) (e : TokenEntry) (es : List TokenEntry)
    → any (is_device_key e.session.device_id e.key) ks ≡ true
    → IsIndexed ks es
    → IsIndexed ks (set_token e es)
unfolding set_token
set_token-Indexed ks e es h v = elim (Bool-cases (any (has_key e.key) es)) [
  | inl there ↦ rw there (Indexed-update ks e e.key es h v)
  | inr absent ↦ rw absent (Indexed-append ks e es h v)
]

-- A new token with its key in the set of its device.
pub Indexed-issue :
    (ks : List DeviceKey) (e : TokenEntry) (es : List TokenEntry)
    → IsIndexed ks es
    → IsIndexed
        (add_device_key (record { device_id = e.session.device_id; key = e.key }) ks)
        (set_token e es)
Indexed-issue ks e es v =
    let k : DeviceKey = record { device_id = e.session.device_id; key = e.key } in
    set_token-Indexed (add_device_key k ks) e es (add_device_key-has k ks)
      (Indexed-mono ks _ es (λ d key. add_device_key-keeps k ks d key) v)
