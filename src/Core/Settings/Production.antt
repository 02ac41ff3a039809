-- ===== src/Core/Settings/Production.antt =====
-- What the settings of a server in production are once Settings.validate lets it start.
use secure_messenger.Prelude.{
  ◌==◌, Bool-cases, Option-cases, any, all, All, Text, codes, text_eq, eq_of_text_eq, text_eq_of_eq,
  contains_text, strip, ℕ, ◌≤◌, ◌<◌, ◌≡◌, refl, ◌⊎◌, inl, inr, true, false, Option, none, some,
  List, [], ◌∷◌, arith,
}
use secure_messenger.Core.Settings.{
  SplitUrl, Settings, is_given, is_set, or_empty, is_production, has_s3,
  is_insecure_production_value, is_bad_origin, check_origins, proxy_networks, check_proxies,
  validate_production_security, check_limits, check_secured, validate,
}

given-true : (s : Text) → is_given s ≡ true → ¬ (s ≡ [])
given-true [] h e = absurd (ground arith)
given-true (c ∷ s) h e = absurd (ground (arith, e))

given-false : (s : Text) → is_given s ≡ false → s ≡ []
given-false [] h = refl
given-false (c ∷ s) h = absurd (ground arith)

given-cases : (s : List Text) → (s ≡ []) ⊎ ((t : Text) × ((ts : List Text) × (s ≡ t ∷ ts)))
given-cases [] = inl refl
given-cases (t ∷ ts) = inr (t, (ts, refl))

cons-not_empty : {t : Text} {s ts : List Text} → s ≡ t ∷ ts → ¬ (s ≡ [])
cons-not_empty e f = absurd (ground (arith, e, f))

module _ (urlsplit : Text → Option SplitUrl) (prefixlen : Text → Option ℕ)
    (lower : Text → Text) where
  -- An origin with https, a host and nothing after it but a slash, without a star.
  pub record IsHttpsOrigin (origin : Text) : Type 0 where
    pub parsed : SplitUrl
    pub is_parsed : urlsplit origin ≡ some parsed
    pub is_https : parsed.scheme ≡ codes "https"
    pub has_host : ¬ (parsed.netloc ≡ [])
    pub no_path : parsed.path ≡ [] ⊎ parsed.path ≡ codes "/"
    pub no_query : parsed.query ≡ []
    pub no_fragment : parsed.fragment ≡ []
    pub no_star : contains_text origin (codes "*") ≡ false

  -- A network that is not the whole internet.
  pub record IsNetwork (value : Text) : Type 0 where
    pub length : ℕ
    pub has_length : prefixlen value ≡ some length
    pub is_part : 0 < length

  -- A value that is not blank and holds no word of a development credential.
  pub record IsSecret (value : Text) : Type 0 where
    pub not_blank : ¬ (lower (strip value) ≡ [])
    pub no_change_me : contains_text (lower (strip value)) (codes "change-me") ≡ false
    pub no_local : contains_text (lower (strip value)) (codes "local-development-only") ≡ false
    pub no_name : contains_text (lower (strip value)) (codes "secure-messenger") ≡ false

  pub record IsSafe (s : Settings) : Type 0 where
    pub database : IsSecret s.database_url
    pub redis : IsSecret (or_empty s.redis_url)
    pub access_key : IsSecret (or_empty s.s3_access_key_id)
    pub secret_key : IsSecret (or_empty s.s3_secret_access_key)
    pub some_origin : ¬ (s.cors_origins ≡ [])
    pub origins : All IsHttpsOrigin s.cors_origins
    pub some_proxy : ¬ (s.trusted_proxy_cidrs ≡ [])
    pub proxies : All IsNetwork s.trusted_proxy_cidrs
    pub in_s3 : s.media_storage_backend ≡ codes "s3"
    pub has_endpoint : ¬ (or_empty s.s3_endpoint_url ≡ [])
    pub has_bucket : ¬ (or_empty s.s3_bucket ≡ [])
    pub session : 300 ≤ s.session_ttl_seconds
    pub refresh : s.session_ttl_seconds ≤ s.refresh_ttl_seconds

  good_origin :
      (origin : Text) (u : SplitUrl)
      → urlsplit origin ≡ some u
      → is_bad_origin urlsplit prefixlen lower origin u ≡ false
      → IsHttpsOrigin origin
  unfolding is_bad_origin
  good_origin origin u e h = record {
    parsed = u;
    is_parsed = e;
    is_https = eq_of_text_eq u.scheme (codes "https") (ground (arith, h));
    has_host = given-true u.netloc (ground (arith, h));
    no_path = elim (Bool-cases (text_eq u.path [])) [
      | inl p ↦ inl (eq_of_text_eq u.path [] p)
      | inr p ↦ inr (eq_of_text_eq u.path (codes "/") (ground (arith, h, p)))
    ];
    no_query = given-false u.query (ground (arith, h));
    no_fragment = given-false u.fragment (ground (arith, h));
    no_star = ground (arith, h);
  }

  checked_origins :
      (origins : List Text)
      → check_origins urlsplit prefixlen lower origins ≡ none
      → All IsHttpsOrigin origins
  unfolding check_origins
  checked_origins [] h = tt
  checked_origins (origin ∷ origins) h = elim (Option-cases (urlsplit origin)) [
    | inl e ↦ absurd (ground (arith, e))
    | inr (u, e) ↦ elim (Bool-cases (is_bad_origin urlsplit prefixlen lower origin u)) [
      | inl bad ↦ absurd (ground (arith, h, e, bad))
      | inr good ↦
          (good_origin origin u e good, checked_origins origins (ground (arith, h, e, good)))
    ]
  ]

  is_secret :
      (value : Text)
      → is_insecure_production_value urlsplit prefixlen lower value ≡ false
      → IsSecret value
  unfolding is_insecure_production_value
  is_secret value h = record {
    not_blank = given-true (lower (strip value)) (ground (arith, h));
    no_change_me = ground (arith, h);
    no_local = ground (arith, h);
    no_name = ground (arith, h);
  }

  networks :
      (values : List Text) (lengths : List ℕ)
      → proxy_networks urlsplit prefixlen lower values ≡ some lengths
      → any (λ n. n == 0) lengths ≡ false
      → All IsNetwork values
  unfolding proxy_networks
  networks [] lengths e h = tt
  networks (value ∷ values) lengths e h = elim (Option-cases (prefixlen value)) [
    | inl f ↦ absurd (ground (arith, e, f))
    | inr (n, f) ↦ elim (Option-cases (proxy_networks urlsplit prefixlen lower values)) [
      | inl g ↦ absurd (ground (arith, e, f, g))
      | inr (ns, g) ↦
          let positive : any (λ m. m == 0) (n ∷ ns) ≡ false = ground (arith, e, f, g, h) in
          (
            record { length = n; has_length = f; is_part = ground (arith, positive) },
            networks values ns g (ground (arith, positive)),
          )
    ]
  ]

  pub record IsChecked (s : Settings) : Type 0 where
    pub origins : check_origins urlsplit prefixlen lower s.cors_origins ≡ none
    pub some_origin : ¬ (s.cors_origins ≡ [])
    pub proxies : check_proxies urlsplit prefixlen lower s ≡ none

  security-none :
      (s : Settings) → validate_production_security urlsplit prefixlen lower s ≡ none → IsChecked s
  unfolding validate_production_security
  security-none s h = elim (given-cases s.cors_origins) [
    | inl e ↦ absurd (ground (arith, h, e))
    | inr (t, (ts, e)) ↦ elim (Option-cases (check_origins urlsplit prefixlen lower (t ∷ ts))) [
      | inl good ↦ record {
        origins = rw e good;
        some_origin = cons-not_empty e;
        proxies = ground (arith, h, e, good);
      }
      | inr (x, bad) ↦ absurd (ground (arith, h, e, bad))
    ]
  ]

  proxies-none :
      (s : Settings)
      → check_proxies urlsplit prefixlen lower s ≡ none
      → (¬ (s.trusted_proxy_cidrs ≡ []) × All IsNetwork s.trusted_proxy_cidrs)
        × (any (is_insecure_production_value urlsplit prefixlen lower) (
              s.database_url
              ∷ or_empty s.redis_url
              ∷ or_empty s.s3_access_key_id
              ∷ or_empty s.s3_secret_access_key
              ∷ [])
            ≡ false)
  unfolding check_proxies
  proxies-none s h = elim (given-cases s.trusted_proxy_cidrs) [
    | inl e ↦ absurd (ground (arith, h, e))
    | inr (t, (ts, e)) ↦ elim (Option-cases (proxy_networks urlsplit prefixlen lower (t ∷ ts))) [
      | inl bad ↦ absurd (ground (arith, h, e, bad))
      | inr (lengths, good) ↦ elim (Bool-cases (any (λ n. n == 0) lengths)) [
        | inl all ↦ absurd (ground (arith, h, e, good, all))
        | inr part ↦ (
          (cons-not_empty e, rw e (networks (t ∷ ts) lengths good part)),
          ground (arith, h, e, good, part),
        )
      ]
    ]
  ]

  limits-none :
      (s : Settings)
      → check_limits urlsplit prefixlen lower s ≡ none
      → is_production s ≡ true
      → (300 ≤ s.session_ttl_seconds × s.session_ttl_seconds ≤ s.refresh_ttl_seconds)
        × (s.media_storage_backend ≡ codes "s3" × has_s3 s ≡ true)
  unfolding check_limits
  limits-none s h prod = (
    (ground (arith, h), ground (arith, h)),
    (
      eq_of_text_eq s.media_storage_backend (codes "s3") (ground (arith, h, prod)),
      ground (arith, h, prod),
    ),
  )

  validate-secured :
      (s : Settings)
      → validate urlsplit prefixlen lower s ≡ none
      → check_secured urlsplit prefixlen lower s ≡ none
  unfolding validate
  validate-secured s h = ground (arith, h)

  secured-none :
      (s : Settings)
      → check_secured urlsplit prefixlen lower s ≡ none
      → is_production s ≡ true
      → validate_production_security urlsplit prefixlen lower s ≡ none
        × check_limits urlsplit prefixlen lower s ≡ none
  unfolding check_secured
  secured-none s h prod =
      elim (Option-cases (validate_production_security urlsplit prefixlen lower s)) [
        | inl good ↦ (good, ground (arith, h, prod, good))
        | inr (x, bad) ↦ absurd (ground (arith, h, prod, bad))
      ]

  some-given : (o : Option Text) → is_set o ≡ true → ¬ (or_empty o ≡ [])
  some-given none h e = absurd (ground arith)
  some-given (some t) h e = given-true t h e

  -- Settings that let a server start in production have secrets that are no development credentials,
  -- origins with https and a host only, proxies in networks that are not the whole internet, their
  -- media in S3, and sessions of five minutes at least that are not longer than a refresh token.
  pub validate-IsSafe :
      (s : Settings)
      → validate urlsplit prefixlen lower s ≡ none
      → s.environment ≡ codes "production"
      → IsSafe s
  validate-IsSafe s h production =
      let prod = text_eq_of_eq s.environment (codes "production") production in
      let (secure, limits) = secured-none s (validate-secured s h) prod in
      let checked = security-none s secure in
      let ((proxies, networks'), credentials) = proxies-none s checked.proxies in
      let ((session, refresh), (in_s3, keys)) = limits-none s limits prod in
      record {
        database = is_secret s.database_url (ground (arith, credentials));
        redis = is_secret (or_empty s.redis_url) (ground (arith, credentials));
        access_key = is_secret (or_empty s.s3_access_key_id) (ground (arith, credentials));
        secret_key = is_secret (or_empty s.s3_secret_access_key) (ground (arith, credentials));
        some_origin = checked.some_origin;
        origins = checked_origins s.cors_origins checked.origins;
        some_proxy = proxies;
        proxies = networks';
        in_s3 = in_s3;
        has_endpoint = some-given s.s3_endpoint_url (ground (arith, keys));
        has_bucket = some-given s.s3_bucket (ground (arith, keys));
        session = session;
        refresh = refresh;
      }
