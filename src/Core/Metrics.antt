-- ===== src/Core/Metrics.antt =====
-- app/core/metrics.py: TechnicalMetrics, whose counters are dictionaries from labels to numbers. A
-- number of seconds is a number of microseconds.
use secure_messenger.Prelude.{
  leb, ◌==◌, if◌then◌else◌, Text, text_eq, ℕ, suc, ◌+◌, ◌-◌, Bool, ◌&&◌, List, [], ◌∷◌,
}

-- The labels (method, route, status) and (method, route).
pub record RequestLabels : Type 0 where
  pub method : Text
  pub route : Text
  pub status : ℕ

pub record RouteLabels : Type 0 where
  pub method : Text
  pub route : Text

abbrev pub same_request : RequestLabels → RequestLabels → Bool
same_request a b = text_eq a.method b.method && text_eq a.route b.route && a.status == b.status

abbrev pub same_route : RouteLabels → RouteLabels → Bool
same_route a b = text_eq a.method b.method && text_eq a.route b.route

-- A Counter: `counter[key]` is 0 where the key is missing.
abbrev pub Counter : Type 0 → Type 0
Counter K = K → ℕ

-- `counter[key] += n`
abbrev pub add_to : {K : Type 0} → (K → K → Bool) → K → ℕ → Counter K → Counter K
add_to same key n counter = λ k. if same key k then counter k + n else counter k

pub record TechnicalMetrics : Type 0 where
  pub http_requests : Counter RequestLabels
  pub http_latency : ℕ → Counter RouteLabels
  pub http_latency_count : Counter RouteLabels
  pub http_latency_seconds : Counter RouteLabels
  pub websocket_open_total : ℕ
  pub websocket_connections : ℕ

abbrev pub no_metrics : TechnicalMetrics
no_metrics = record {
  http_requests = λ _. 0;
  http_latency = λ _ _. 0;
  http_latency_count = λ _. 0;
  http_latency_seconds = λ _. 0;
  websocket_open_total = 0;
  websocket_connections = 0;
}

-- In microseconds.
abbrev pub latency_buckets : List ℕ
latency_buckets = 50000 ∷ 100000 ∷ 250000 ∷ 500000 ∷ 1000000 ∷ 2500000 ∷ 5000000 ∷ []

-- The loop over the buckets.
unfoldable pub observe_buckets :
    List ℕ → RouteLabels → ℕ → (ℕ → Counter RouteLabels) → ℕ → Counter RouteLabels
observe_buckets [] route seconds latency = latency
observe_buckets (bucket ∷ buckets) route seconds latency = observe_buckets buckets route seconds (
    if leb seconds bucket
    then (λ b. if bucket == b then add_to same_route route 1 (latency b) else latency b)
    else latency)

unfoldable pub observe_http : Text → Text → ℕ → ℕ → TechnicalMetrics → TechnicalMetrics
unfolding observe_buckets
observe_http method route status seconds m =
    let labels : RequestLabels = record { method = method; route = route; status = status } in
    let route_labels : RouteLabels = record { method = method; route = route } in
    record m {
      http_requests = add_to same_request labels 1 m.http_requests;
      http_latency_count = add_to same_route route_labels 1 m.http_latency_count;
      http_latency_seconds = add_to same_route route_labels seconds m.http_latency_seconds;
      http_latency = observe_buckets latency_buckets route_labels seconds m.http_latency;
    }

unfoldable pub websocket_opened : TechnicalMetrics → TechnicalMetrics
websocket_opened m = record m {
  websocket_open_total = suc m.websocket_open_total;
  websocket_connections = suc m.websocket_connections;
}

-- `max(0, self.websocket_connections - 1)`: subtraction on ℕ stops at 0 by itself.
unfoldable pub websocket_closed : TechnicalMetrics → TechnicalMetrics
websocket_closed m = record m { websocket_connections = m.websocket_connections - 1 }
