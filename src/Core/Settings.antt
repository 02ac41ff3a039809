-- ===== src/Core/Settings.antt =====
-- app/core/config.py: Settings.validate, which runs before the server starts. urlsplit, ip_network
-- and str.lower are parameters: `urlsplit` gives none where it raises ValueError, and `prefixlen`
-- gives the length of a network's prefix, or none where ip_network raises. The fields that validate
-- does not read are left out; the two numbers are in ℕ, since below 300 all of them are refused.
pub mod Production
use secure_messenger.Prelude.{
  ltb, ◌==◌, if◌then◌else◌, length, any, Text, codes, text_eq, text_in, starts_with, contains_text,
  strip, ℕ, ◌*◌, ◌/◌, Bool, true, false, ◌&&◌, ◌||◌, not, Option, none, some, List, [], ◌∷◌,
}

pub record SplitUrl : Type 0 where
  pub scheme : Text
  pub netloc : Text
  pub path : Text
  pub query : Text
  pub fragment : Text

pub record Settings : Type 0 where
  pub environment : Text
  pub database_url : Text
  pub cors_origins : List Text
  pub redis_url : Option Text
  pub session_ttl_seconds : ℕ
  pub refresh_ttl_seconds : ℕ
  pub media_storage_backend : Text
  pub s3_endpoint_url : Option Text
  pub s3_bucket : Option Text
  pub s3_access_key_id : Option Text
  pub s3_secret_access_key : Option Text
  pub trusted_proxy_cidrs : List Text

-- The RuntimeErrors of validate, in the order of their tests, and a ValueError of urlsplit.
pub data SettingsError : Type 0 where
  unknown_environment needs_postgres needs_redis needs_origins insecure_origin invalid_origin :
      SettingsError
  needs_proxies invalid_proxy trusts_internet development_credential : SettingsError
  short_session short_refresh unknown_backend needs_s3 incomplete_s3 : SettingsError

-- The truth of a text and of a text that may be None.
abbrev pub is_given : Text → Bool
is_given [] = false
is_given (c ∷ s) = true

abbrev pub is_set : Option Text → Bool
is_set none = false
is_set (some s) = is_given s

-- `value or ""`
abbrev pub or_empty : Option Text → Text
or_empty none = []
or_empty (some s) = s

abbrev pub insecure_production_values : List Text
insecure_production_values =
    []
    ∷ codes "change-me"
    ∷ codes "local-development-only"
    ∷ codes "local-development-only-change-me"
    ∷ codes "secure-messenger"
    ∷ []

abbrev pub is_production : Settings → Bool
is_production s = text_eq s.environment (codes "production")

-- The first two tests of validate.
unfoldable pub is_known_environment : Settings → Bool
is_known_environment s =
    text_in s.environment (codes "development" ∷ codes "test" ∷ codes "production" ∷ [])

unfoldable pub is_postgres : Settings → Bool
is_postgres s =
    starts_with s.database_url (codes "postgresql+psycopg://")
    || starts_with s.database_url (codes "postgresql+psycopg_async://")

-- The tests of `all((…))` on the four settings of S3.
abbrev pub has_s3 : Settings → Bool
has_s3 s =
    is_set s.s3_endpoint_url
    && is_set s.s3_bucket
    && is_set s.s3_access_key_id
    && is_set s.s3_secret_access_key

module _ (urlsplit : Text → Option SplitUrl) (prefixlen : Text → Option ℕ)
    (lower : Text → Text) where
  unfoldable pub is_insecure_production_value : Text → Bool
  is_insecure_production_value value =
      let normalized = lower (strip value) in
      not (is_given normalized)
      || any (λ marker. is_given marker && contains_text normalized marker)
          insecure_production_values

  -- The test of one origin.
  unfoldable pub is_bad_origin : Text → SplitUrl → Bool
  is_bad_origin origin parsed =
      not (text_eq parsed.scheme (codes "https"))
      || not (is_given parsed.netloc)
      || not (text_in parsed.path ([] ∷ codes "/" ∷ []))
      || is_given parsed.query
      || is_given parsed.fragment
      || contains_text origin (codes "*")

  -- `for origin in self.cors_origins`
  unfoldable pub check_origins : List Text → Option SettingsError
  unfolding is_bad_origin
  check_origins [] = none
  check_origins (origin ∷ origins) =
      let rest = check_origins origins in
      elim (urlsplit origin) [
        | none ↦ some invalid_origin
        | some parsed ↦ if is_bad_origin origin parsed then some insecure_origin else rest
      ]

  -- The lengths of `tuple(ip_network(value, strict=False) for value in …)`.
  unfoldable pub proxy_networks : List Text → Option (List ℕ)
  proxy_networks [] = some []
  proxy_networks (value ∷ values) =
      let rest = proxy_networks values in
      elim (prefixlen value) [
        | none ↦ none
        | some length ↦ elim rest [ none ↦ none | some lengths ↦ some (length ∷ lengths) ]
      ]

  -- The tests of the proxies' networks, and then of the credentials.
  unfoldable pub check_proxies : Settings → Option SettingsError
  unfolding proxy_networks is_insecure_production_value
  check_proxies s = elim s.trusted_proxy_cidrs [
    | [] ↦ some needs_proxies
    | cidr ∷ cidrs ↦ elim (proxy_networks (cidr ∷ cidrs)) [
      | none ↦ some invalid_proxy
      | some lengths ↦
          if any (λ n. n == 0) lengths
          then some trusts_internet
          else if any is_insecure_production_value (
              s.database_url
              ∷ or_empty s.redis_url
              ∷ or_empty s.s3_access_key_id
              ∷ or_empty s.s3_secret_access_key
              ∷ [])
          then some development_credential
          else none
    ]
  ]

  unfoldable pub validate_production_security : Settings → Option SettingsError
  unfolding check_origins check_proxies
  validate_production_security s = elim s.cors_origins [
    | [] ↦ some needs_origins
    | origin ∷ origins ↦ elim (check_origins (origin ∷ origins)) [
      | some error ↦ some error
      | none ↦ check_proxies s
    ]
  ]

  -- The tests of validate after those of the security in production.
  unfoldable pub check_limits : Settings → Option SettingsError
  check_limits s =
      if ltb s.session_ttl_seconds 300
      then some short_session
      else if ltb s.refresh_ttl_seconds s.session_ttl_seconds
      then some short_refresh
      else if not (text_in s.media_storage_backend (codes "local" ∷ codes "s3" ∷ []))
      then some unknown_backend
      else if is_production s && not (text_eq s.media_storage_backend (codes "s3"))
      then some needs_s3
      else if text_eq s.media_storage_backend (codes "s3") && not (has_s3 s)
      then some incomplete_s3
      else none

  -- The tests that are left once the environment has its databases.
  unfoldable pub check_secured : Settings → Option SettingsError
  unfolding validate_production_security check_limits
  check_secured s = elim (if is_production s then validate_production_security s else none) [
    | some error ↦ some error
    | none ↦ check_limits s
  ]

  -- The error that stops the start of the server, if any.
  unfoldable pub validate : Settings → Option SettingsError
  unfolding check_secured
  validate s =
      if not (is_known_environment s)
      then some unknown_environment
      else if is_production s && not (is_postgres s)
      then some needs_postgres
      else if is_production s && not (is_set s.redis_url)
      then some needs_redis
      else check_secured s
