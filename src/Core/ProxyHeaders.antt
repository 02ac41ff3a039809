-- ===== src/Core/ProxyHeaders.antt =====
-- app/core/proxy_headers.py: TrustedProxyHeadersMiddleware, up to the scope it passes to the
-- application. ip_address is a parameter, none where it raises, and `is_in` stands
-- for `address in network`.
use secure_messenger.Prelude.{
  ltb, leb, if◌then◌else◌, Bool-cases, Option-cases, filter, any, Text, codes, text_eq, text_in,
  strip, split_on, ℕ, ◌+◌, ◌≡◌, refl, ◌⊎◌, inl, inr, Bool, true, false, ◌&&◌, Option, none, some,
  List, [], ◌∷◌, map, arith,
}

-- Bytes are numbers, so a name is a text.
pub record Scope : Type 0 where
  pub kind : Text
  pub client : Option Text
  pub headers : List (Text × Text)
  pub scheme : Text

-- `key.lower()` on bytes, which changes A to Z only
abbrev lower_byte : ℕ → ℕ
lower_byte c = if leb 65 c && leb c 90 then c + 32 else c

-- `headers.get(name, b"")` on the dictionary of the lowered names: the last of them counts.
unfoldable pub header : Text → List (Text × Text) → Text
header name hs = get hs []
  where
    get : List (Text × Text) → Text → Text
    get [] found = found
    get ((key, value) ∷ rest) found =
        get rest (if text_eq (map lower_byte key) name then value else found)

-- `.decode("ascii", "ignore").split(",")[0].strip()`
unfoldable pub first_value : Text → Text
first_value value = elim (split_on 44 (filter (λ c. ltb c 128) value)) [
  | [] ↦ []
  | part ∷ parts ↦ strip part
]

module _ {Address Network : Type 0} (ip_address : Text → Option Address)
    (is_in : Address → Network → Bool) (networks : List Network) where
  -- `_is_trusted`: an address that does not parse is not trusted.
  unfoldable pub is_trusted : Text → Bool
  is_trusted host = elim (ip_address host) [
    | none ↦ false
    | some address ↦ any (is_in address) networks
  ]

  abbrev forwarded_proto : Scope → Text
  forwarded_proto scope = first_value (header (codes "x-forwarded-proto") scope.headers)

  abbrev is_scheme : Text → Bool
  is_scheme s = text_in s (codes "http" ∷ codes "https" ∷ [])

  abbrev may_forward : Scope → Text → Bool
  may_forward scope host =
      text_in scope.kind (codes "http" ∷ codes "websocket" ∷ []) && is_trusted host

  -- The scope that the application gets.
  unfoldable pub forward : Scope → Scope
  forward scope = elim scope.client [
    | none ↦ scope
    | some host ↦
        if may_forward scope host && is_scheme (forwarded_proto scope)
        then record scope { scheme = forwarded_proto scope }
        else scope
  ]

  -- A client in none of the networks changes nothing by its headers.
  forward-untrusted :
      (scope : Scope) (host : Text)
      → scope.client ≡ some host
      → is_trusted host ≡ false
      → forward scope ≡ scope
  unfolding forward
  forward-untrusted scope host client untrusted = ground (arith, client, untrusted)

  -- The application sees the scheme that the server saw, or "http" or "https".
  forward-scheme :
      (scope : Scope)
      → ((forward scope).scheme ≡ scope.scheme) ⊎ (is_scheme (forward scope).scheme ≡ true)
  unfolding forward
  forward-scheme scope = elim (Option-cases scope.client) [
    | inl e ↦ inl (rw e refl)
    | inr (host, e) ↦
        elim (Bool-cases (may_forward scope host && is_scheme (forwarded_proto scope))) [
          | inl taken ↦ inr (rw e (rw taken (ground (arith, taken))))
          | inr kept ↦ inl (rw e (rw kept refl))
        ]
  ]
