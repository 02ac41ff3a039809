-- ===== src/Core/Tests.antt =====
-- Settings of a server in production, what stops its start, and the headers of a proxy.
use secure_messenger.Core.ProxyHeaders.{Scope, forward, is_trusted, header, first_value}
use secure_messenger.Prelude.{
  text_eq, if◌then◌else◌, Text, codes, ◌≡◌, refl, Option, none, some, [], ◌∷◌, ℕ, starts_with,
  contains_text, strip, split_on,
}
use secure_messenger.Core.Settings.{
  SplitUrl, Settings, validate, trusts_internet, insecure_origin, development_credential,
  short_session, is_known_environment, is_postgres,
}
use secure_messenger.Core.Settings.Production.{IsSafe, validate-IsSafe}

abbrev split : Text → Option SplitUrl
split origin =
    if text_eq origin (codes "https://chat.example")
    then some (record {
      scheme = codes "https";
      netloc = codes "chat.example";
      path = [];
      query = [];
      fragment = [];
    })
    else if text_eq origin (codes "http://chat.example")
    then some (record {
      scheme = codes "http";
      netloc = codes "chat.example";
      path = [];
      query = [];
      fragment = [];
    })
    else none

abbrev prefix : Text → Option ℕ
prefix value =
    if text_eq value (codes "10.0.0.0/8")
    then some 8
    else if text_eq value (codes "0.0.0.0/0")
    then some 0
    else none

-- The texts below have no capitals.
abbrev as_is : Text → Text
as_is s = s

abbrev deployed : Settings
deployed = record {
  environment = codes "production";
  database_url = codes "postgresql+psycopg://db/chat";
  cors_origins = codes "https://chat.example" ∷ [];
  redis_url = some (codes "redis://cache");
  session_ttl_seconds = 900;
  refresh_ttl_seconds = 2592000;
  media_storage_backend = codes "s3";
  s3_endpoint_url = some (codes "https://s3");
  s3_bucket = some (codes "media");
  s3_access_key_id = some (codes "key");
  s3_secret_access_key = some (codes "secret");
  trusted_proxy_cidrs = codes "10.0.0.0/8" ∷ [];
}

deployed_starts : validate split prefix as_is deployed ≡ none
unfolding validate is_known_environment is_postgres text_eq starts_with contains_text strip
deployed_starts = refl

validate-IsSafe_example : IsSafe split prefix as_is deployed
validate-IsSafe_example = validate-IsSafe split prefix as_is deployed deployed_starts refl

plain_origin_stops :
    validate split prefix as_is
      (record deployed { cors_origins = codes "http://chat.example" ∷ [] })
    ≡ some insecure_origin
unfolding validate is_known_environment is_postgres text_eq starts_with contains_text strip
plain_origin_stops = refl

open_proxy_stops :
    validate split prefix as_is (record deployed { trusted_proxy_cidrs = codes "0.0.0.0/0" ∷ [] })
    ≡ some trusts_internet
unfolding validate is_known_environment is_postgres text_eq starts_with contains_text strip
open_proxy_stops = refl

default_secret_stops :
    validate split prefix as_is
      (record deployed { s3_secret_access_key = some (codes " change-me") })
    ≡ some development_credential
unfolding validate is_known_environment is_postgres text_eq starts_with contains_text strip
default_secret_stops = refl

short_session_stops :
    validate split prefix as_is (record deployed { session_ttl_seconds = 299 }) ≡ some short_session
unfolding validate is_known_environment is_postgres text_eq starts_with contains_text strip
short_session_stops = refl

-- Networks are the addresses they begin with.
abbrev seen : Text → Text → Scope
seen host proto = record {
  kind = codes "http";
  client = some host;
  headers = (codes "X-Forwarded-Proto", proto) ∷ [];
  scheme = codes "http";
}

trusted_proxy_forwards :
    (forward some starts_with
      (codes "10." ∷ [])
      (seen (codes "10.0.0.1") (codes " https, http"))).scheme
    ≡ codes "https"
unfolding forward is_trusted header first_value text_eq starts_with strip split_on
trusted_proxy_forwards = refl

other_client_forwards_nothing :
    (forward some starts_with (codes "10." ∷ []) (seen (codes "9.0.0.1") (codes "https"))).scheme
    ≡ codes "http"
unfolding forward is_trusted header first_value text_eq starts_with strip split_on
other_client_forwards_nothing = refl
