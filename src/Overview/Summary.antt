-- ===== src/Overview/Summary.antt =====
-- What Overview.tsx shows besides the chart: the four cards and the table of the upstreams. The
-- numbers of the answers are a parameter, with the methods of JavaScript's that print them.
use mcpxy.Prelude.{
  ℕ, String, Bool, Option, none, some, List, [], ◌∷◌, ◌<>◌, map, show, length, truthy,
  if◌then◌else◌,
}
use mathlib.Core.Option
use mcpxy.Overview.Polling.{Cards}
use mcpxy.Api.Json.{Json}

-- What the page uses of the numbers.
pub record Figures {ℓ} (N : Type ℓ) : Type ℓ where
  -- `a < n`, `a * n`, `a / n`
  pub is_below : N → ℕ → Bool
  pub times : N → ℕ → N
  pub over : N → ℕ → N
  pub text : N → String
  -- `Math.round(a)`
  pub round : N → N
  -- `a.toFixed(n)` and `a.toLocaleString()`
  pub to_fixed : N → ℕ → String
  pub to_locale : N → String

pub record UpstreamMetrics {ℓ} (N : Type ℓ) : Type ℓ where
  pub total : N
  pub errors : N
  pub latency_p50_ms : N
  pub latency_p95_ms : N
  pub latency_p99_ms : N

-- What the page reads of the answers.
pub record MetricsResponse {ℓ} (N : Type ℓ) : Type ℓ where
  pub total : N
  pub errors : N
  pub error_rate : N
  pub latency_p95_ms : N
  pub per_upstream : List (String × UpstreamMetrics N)

pub record HealthResponse {ℓ} (N : Type ℓ) : Type ℓ where
  pub upstreams : List String
  pub uptime_s : N
  pub version : String

pub record StatCard : Type 0 where
  pub label : String
  pub value : String
  pub hint : Option String

pub record Shown : Type 0 where
  pub version : Option String
  pub cards : List StatCard
  -- Name, total, errors, p50, p95 and p99 of an upstream; the section is left out with no row.
  pub rows : List (List String)

module _ {ℓ} {N : Type ℓ} (numbers : Figures N) where
  unfoldable pub format_uptime : N → String
  format_uptime s =
      if numbers.is_below s 60
      then numbers.text (numbers.round s) <> "s"
      else if numbers.is_below s 3600
      then numbers.text (numbers.round (numbers.over s 60)) <> "m"
      else if numbers.is_below s 86400
      then numbers.to_fixed (numbers.over s 3600) 1 <> "h"
      else numbers.to_fixed (numbers.over s 86400) 1 <> "d"

  abbrev value_of {κ} : {A : Type κ} → (A → String) → Option A → String
  value_of text none = "—"
  value_of text (some a) = text a

  abbrev upstream_count : Option (HealthResponse N) → ℕ
  upstream_count none = 0
  upstream_count (some h) = length h.upstreams

  abbrev errors_hint : Option (MetricsResponse N) → Option String
  errors_hint none = none
  errors_hint (some m) = some (numbers.text m.errors <> " errors")

  abbrev version_of : Option (HealthResponse N) → Option String
  version_of none = none
  version_of (some h) = if truthy h.version then some ("v" <> h.version) else none

  abbrev row_of : String × UpstreamMetrics N → List String
  row_of (name, m) =
      name
      ∷ numbers.text m.total
      ∷ numbers.text m.errors
      ∷ (numbers.text m.latency_p50_ms <> " ms")
      ∷ (numbers.text m.latency_p95_ms <> " ms")
      ∷ (numbers.text m.latency_p99_ms <> " ms")
      ∷ []

  abbrev rows_of : Option (MetricsResponse N) → List (List String)
  rows_of none = []
  rows_of (some m) = map row_of m.per_upstream

  unfoldable pub stat_cards : Option (MetricsResponse N) → Option (HealthResponse N) → List StatCard
  unfolding format_uptime
  stat_cards metrics health =
      record {
        label = "Uptime";
        value = value_of (λ h. format_uptime h.uptime_s) health;
        hint = some (show (upstream_count health) <> " upstreams");
      }
      ∷ record {
        label = "Requests (5m)";
        value = value_of (λ m. numbers.to_locale m.total) metrics;
        hint = errors_hint metrics;
      }
      ∷ record {
        label = "Error rate";
        value = value_of (λ m. numbers.to_fixed (numbers.times m.error_rate 100) 1 <> "%") metrics;
        hint = some "last 5 minutes";
      }
      ∷ record {
        label = "p95 latency";
        value = value_of (λ m. numbers.to_fixed m.latency_p95_ms 0 <> " ms") metrics;
        hint = some "last 5 minutes";
      }
      ∷ []

  unfoldable pub overview : Option (MetricsResponse N) → Option (HealthResponse N) → Shown
  unfolding stat_cards
  overview metrics health = record {
    version = version_of health;
    cards = stat_cards metrics health;
    rows = rows_of metrics;
  }

  module _ (read_metrics : Json → MetricsResponse N) (read_health : Json → HealthResponse N) where
    unfoldable pub page : Cards → Shown
    unfolding overview
    page c = overview (Option.map read_metrics c.metrics) (Option.map read_health c.health)
