-- ===== src/Graph/View.antt =====
-- frontend/src/pages/Graph.tsx: what the page shows around the picture: the window's buttons, the
-- badge of dropped subscribers, the error and the tooltip of the node under the mouse.
pub mod Tooltips
use mcpxy.Prelude.{
  ℕ, zero, suc, String, Bool, true, false, not, Option, none, some, List, [], ◌∷◌, ◌==◌, ◌&&◌,
  truthy, or_else, or_null, if◌then◌else◌,
}
use mcpxy.Record.{lookup}
use mcpxy.Graph.{Window, w60, w300, w900}
use mcpxy.Graph.Layout.{RouteInfo, proxy_id}
use mcpxy.Graph.Scene.{is_healthy, transport_of}

-- One row of `per_upstream`, as far as the page prints it.
pub record UpstreamMetrics : Type 0 where
  pub total : ℕ
  pub errors : ℕ
  pub latency_p50_ms : ℕ
  pub latency_p95_ms : ℕ
  pub latency_p99_ms : ℕ

pub record Metrics : Type 0 where
  pub per_upstream : Option (List (String × UpstreamMetrics))
  pub dropped_for_subscribers : Option ℕ

abbrev same_window : Window → Window → Bool
same_window w60 w60 = true
same_window w300 w300 = true
same_window w900 w900 = true
same_window _ _ = false

abbrev window_label : Window → String
window_label w60 = "60s"
window_label w300 = "5m"
window_label w900 = "15m"

-- The three buttons: label, and whether it is the chosen one.
unfoldable pub window_buttons : Window → List (String × Bool)
window_buttons window =
    (window_label w60, same_window window w60)
    ∷ (window_label w300, same_window window w300)
    ∷ (window_label w900, same_window window w900)
    ∷ []

abbrev unless_zero : ℕ → Option ℕ
unless_zero n = elim n [ zero ↦ none | suc m ↦ some (suc m) ]

-- `droppedSubs > 0`
unfoldable pub dropped_badge : Option Metrics → Option ℕ
dropped_badge none = none
dropped_badge (some m) = unless_zero (or_else m.dropped_for_subscribers 0)

unfoldable pub metrics_of : Option Metrics → String → Option UpstreamMetrics
metrics_of none id = none
metrics_of (some m) id = elim m.per_upstream [ none ↦ none | some rows ↦ lookup id rows ]

pub record Tooltip : Type 0 where
  pub title : String
  pub healthy : Bool
  -- The line of the transport, if there is one.
  pub transport : Option String
  -- `none` is the line "No traffic in metrics window".
  pub metrics : Option UpstreamMetrics

-- `transportOf(…) && …`
unfoldable pub shown_transport : Option String → Option String
shown_transport none = none
shown_transport (some t) = or_null t

-- `hoveredRoute` and `hoveredMetrics`, and the box that they fill.
unfoldable pub tooltip : Option String → List (String × RouteInfo) → Option Metrics → Option Tooltip
unfolding is_healthy transport_of shown_transport metrics_of
tooltip none routes metrics = none
tooltip (some id) routes metrics =
    if truthy id && not (id == proxy_id)
    then elim (lookup id routes) [
      | none ↦ none
      | some info ↦ some record {
        title = id;
        healthy = is_healthy (some info);
        transport = shown_transport (transport_of (some info));
        metrics = metrics_of metrics id;
      }
    ]
    else none

-- The card: the picture with the tooltip, or the text of a page without upstreams.
pub data Body : Type 0 where
  no_upstreams : Body
  topology : Option Tooltip → Body

unfoldable pub body_of : Option String → List (String × RouteInfo) → Option Metrics → Body
unfolding tooltip
body_of hovered [] metrics = no_upstreams
body_of hovered (route ∷ routes) metrics = topology (tooltip hovered (route ∷ routes) metrics)
