-- ===== src/Graph/View/Tooltips.antt =====
-- The tooltip and the picture agree.
use mcpxy.Prelude.{
  String, not, Option, none, some, List, [], ◌∷◌, ◌≡◌, refl, arith, All, ◌==◌, ◌&&◌, truthy,
  or_else, eq_iff, eq_refl, if◌then◌else◌,
}
use mcpxy.Record.{lookup, IsFresh, HasDistinctKeys}
use mcpxy.Graph.{Window, Weights, EdgeStats, no_stats}
use mcpxy.Graph.Layout.{RouteInfo, proxy_id, names_of}
use mcpxy.Graph.Layout.Places.{layout_places}
use mcpxy.Graph.Canvas.{Floats, GraphNode}
use mcpxy.Graph.Scene.{
  Measures, Positions, layout, is_healthy, transport_of, upstream_node, proxy_node, Scene,
  draw_routes, draw,
}
use mcpxy.Graph.Scene.Star.{HasPlace, places_of, around, draw-around}
use mcpxy.Graph.View.{Metrics, metrics_of, Tooltip, shown_transport, tooltip}

-- Each route is found under its name.
abbrev IsHeld : List (String × RouteInfo) → List (String × RouteInfo) → Type 0
IsHeld all [] = Unit
IsHeld all ((name, info) ∷ routes) = (lookup name all ≡ some info) × IsHeld all routes

IsHeld-cons :
    (key : String) (info : RouteInfo) (all routes : List (String × RouteInfo))
    → IsFresh key routes
    → IsHeld all routes
    → IsHeld ((key, info) ∷ all) routes
unfolding lookup
IsHeld-cons key info all [] f h = tt
IsHeld-cons key info all ((name, i) ∷ routes) (f, fs) (h, hs) =
    (ground (arith, eq_iff key name), IsHeld-cons key info all routes fs hs)

HasDistinctKeys-IsHeld :
    (routes : List (String × RouteInfo)) → HasDistinctKeys routes → IsHeld routes routes
unfolding lookup
HasDistinctKeys-IsHeld [] h = tt
HasDistinctKeys-IsHeld ((name, info) ∷ routes) (f, h) = (
  ground (arith, eq_refl name),
  IsHeld-cons name info routes routes f (HasDistinctKeys-IsHeld routes h),
)

module _ {weights : Weights} {floats : Floats} (measures : Measures weights floats) where
  -- The tooltip that repeats what a node shows.
  abbrev pub told_by : GraphNode floats → Option Metrics → Tooltip
  told_by n metrics = record {
    title = n.id;
    healthy = n.healthy;
    transport = shown_transport n.sublabel;
    metrics = metrics_of metrics n.id;
  }

  abbrev pub IsTold : List (String × RouteInfo) → Option Metrics → GraphNode floats → Type 0
  IsTold routes metrics n =
      tooltip (some n.id) routes metrics
      ≡ (if truthy n.id && not (n.id == proxy_id) then some (told_by n metrics) else none)

  tooltip-info :
      (name : String) (info : RouteInfo) (all : List (String × RouteInfo))
      (metrics : Option Metrics) (n : GraphNode floats)
      → lookup name all ≡ some info
      → n.id ≡ name
      → n.healthy ≡ is_healthy (some info)
      → n.sublabel ≡ transport_of (some info)
      → IsTold all metrics n
  unfolding tooltip
  tooltip-info name info all metrics n e i h s = ground arith

  draw_routes-IsTold :
      (window : Window) (start : floats.Number × floats.Number)
      (positions : Positions weights floats measures) (stats : List (String × EdgeStats weights))
      (metrics : Option Metrics) (all routes : List (String × RouteInfo))
      → All (HasPlace measures positions) (names_of routes)
      → IsHeld all routes
      → All
          (IsTold all metrics)
          (draw_routes weights floats measures window start positions stats routes).nodes
  unfolding draw_routes upstream_node
  draw_routes-IsTold window start positions stats metrics all [] h held = tt
  draw_routes-IsTold window start positions stats metrics all ((name, info) ∷ routes) ((pos, e), h)
        (own, held) =
      let s = or_else (lookup name stats) (no_stats weights) in
      let node = upstream_node weights floats measures name info pos s in
      rw (e, draw_routes)
        (
          tooltip-info name info all metrics node own refl refl refl,
          draw_routes-IsTold window start positions stats metrics all routes h held,
        )

  -- With the mouse over a node of the picture the page shows a tooltip that says of this route what
  -- the node does, its health and its transport, with the metrics of its name; there is none for
  -- the proxy, and none for a route with an empty name.
  pub draw-IsTold :
      (window : Window) (stats : List (String × EdgeStats weights))
      (routes : List (String × RouteInfo)) (metrics : Option Metrics)
      → HasDistinctKeys routes
      → (scene : Scene weights floats measures) × (draw weights floats measures window stats routes
          ≡ some scene)
        × All (IsTold routes metrics) scene.nodes
  unfolding proxy_node tooltip
  draw-IsTold window stats routes metrics h =
      let at_proxy = (layout_places measures.center measures.ring routes h).1 in
      (
        around measures window stats routes _,
        draw-around measures window stats routes at_proxy,
        (
          refl,
          draw_routes-IsTold window _ (layout weights floats measures routes) stats metrics routes
              routes (places_of measures routes h) (HasDistinctKeys-IsHeld routes h),
        ),
      )
