-- ===== src/Tests/Overview.antt =====
-- The overview at concrete answers: its numbers are natural numbers here.
use mcpxy.Prelude.{ℕ, ◌*◌, true, false, none, List, [], ◌∷◌, ◌≡◌, refl, ltb, show}
use mcpxy.Api.Json.{Json, null, boolean, ok, err, error}
use mcpxy.Overview.Polling.{Event, polled, unmounted, run}
use mcpxy.Overview.Summary.{Figures, MetricsResponse, HealthResponse, format_uptime, page}
use mcpxy.Overview.Rounds.{latest, cards_of, Shows, page_latest}

abbrev whole_numbers : Figures ℕ
whole_numbers = record {
  is_below = ltb;
  times = ◌*◌;
  over = λ n m. elim (ltb n m) [ true ↦ 0 | false ↦ 1 ];
  text = show;
  round = λ n. n;
  to_fixed = λ n digits. show n;
  to_locale = show;
}

-- From an hour on the uptime is in hours.
uptime_in_hours : format_uptime whole_numbers 3600 ≡ "1h"
unfolding format_uptime show
uptime_in_hours = refl

abbrev read_metrics : Json → MetricsResponse ℕ
read_metrics json = record {
  total = 12;
  errors = 3;
  error_rate = 0;
  latency_p95_ms = 40;
  per_upstream =
      (
        "git",
        record {
          total = 12;
          errors = 3;
          latency_p50_ms = 20;
          latency_p95_ms = 40;
          latency_p99_ms = 41;
        },
      )
      ∷ [];
}

abbrev read_health : Json → HealthResponse ℕ
read_health (boolean true) = record { upstreams = []; uptime_s = 5; version = "" }
read_health json = record { upstreams = "git" ∷ []; uptime_s = 61; version = "1.0" }

-- A round that is whole, one of which the health fails, and one behind the end of the page.
abbrev three_rounds : List Event
three_rounds =
    polled false (ok null) (ok null)
    ∷ polled true (ok null) (err (error "offline"))
    ∷ unmounted
    ∷ polled false (ok null) (ok (boolean true))
    ∷ []

page_latest_example :
    Shows whole_numbers read_metrics read_health
      (latest none three_rounds)
      (page whole_numbers read_metrics read_health (run (cards_of none) three_rounds))
page_latest_example = page_latest whole_numbers read_metrics read_health three_rounds
