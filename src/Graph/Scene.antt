-- ===== src/Graph/Scene.antt =====
-- frontend/src/pages/Graph.tsx: the nodes and the edges of one render, what the page shows besides
-- them, and the pulse of an edge.
pub mod Star
pub mod Along
use mcpxy.Prelude.{
  ℕ, String, Bool, true, false, not, Option, none, some, List, [], ◌∷◌, ◌==◌, ◌&&◌, ◌||◌, ltb,
  or_else, truthy, ◌<>◌, if◌then◌else◌,
}
use mcpxy.Record.{lookup}
use mcpxy.Api.Json.{Json, object, boolean, string, field_of, string_field}
use mcpxy.Api.Types.{TrafficStatus, is_ok_status}
use mcpxy.Graph.{Window, Weights, EdgeStats, no_stats}
use mcpxy.Graph.Layout.{RouteInfo, proxy_id, compute_layout}
use mcpxy.Graph.Canvas.{
  Floats, Color, ok, err, warn, edge_idle, proxy, upstream, GraphNode, GraphEdge,
}

abbrev is_text : String → Json → Bool
is_text wanted (string s) = s == wanted
is_text wanted _ = false

abbrev is_true : Json → Bool
is_true (boolean b) = b
is_true _ = false

-- The health is ok by `status`, or by `running`.
unfoldable pub is_healthy : Option RouteInfo → Bool
is_healthy none = false
is_healthy (some info) = elim info.health [
  | object fields ↦
      elim (field_of fields "status") [ none ↦ false | some v ↦ is_text "ok" v ]
      || elim (field_of fields "running") [ none ↦ false | some v ↦ is_true v ]
  | _ ↦ false
]

unfoldable pub transport_of : Option RouteInfo → Option String
transport_of none = none
transport_of (some info) = string_field info.health "type"

-- What the page computes in floating point: the places, the sum of an edge's counters, and its tests
-- and measures. `too_many` and `some_errors` compare the errors' share of the sum with 0.25 and 0.05.
pub record Measures (weights : Weights) (floats : Floats) : Type 0 where
  pub center : floats.Number × floats.Number
  pub ring : (n index : ℕ) → floats.Number × floats.Number
  pub intensity : weights.Weight → weights.Weight → floats.Number
  pub is_idle : floats.Number → Bool
  pub is_faint : floats.Number → Bool
  pub many_errors : weights.Weight → floats.Number → Bool
  pub some_errors : weights.Weight → floats.Number → Bool
  pub width : floats.Number → Window → floats.Number
  pub radius : floats.Number → floats.Number

module _ (weights : Weights) (floats : Floats) (measures : Measures weights floats) where
  open floats use {Number, from_nat}
  open measures use {
    center, ring, intensity, is_idle, is_faint, many_errors, some_errors, width, radius,
  }

  abbrev pub Positions : Type 0
  Positions = List (String × (Number × Number))

  abbrev pub layout : List (String × RouteInfo) → Positions
  layout = compute_layout center ring

  unfoldable pub color_for_stats : EdgeStats weights → Color
  color_for_stats s =
      let total = intensity s.ok_ewma s.err_ewma in
      if is_idle total
      then edge_idle
      else if many_errors s.err_ewma total
      then err
      else if some_errors s.err_ewma total
      then warn
      else ok

  unfoldable pub opacity_for_intensity : Number → ℕ
  opacity_for_intensity i = if is_faint i then 30 else 85

  unfoldable pub proxy_node : Number × Number → GraphNode floats
  proxy_node (x, y) = record {
    id = proxy_id;
    kind = proxy;
    label = "MCPxy";
    x = x;
    y = y;
    radius = from_nat 46;
    healthy = true;
    sublabel = none;
  }

  unfoldable pub upstream_node :
      String → RouteInfo → Number × Number → EdgeStats weights → GraphNode floats
  unfolding is_healthy transport_of
  upstream_node name info (x, y) stats = record {
    id = name;
    kind = upstream;
    label = name;
    x = x;
    y = y;
    radius = radius (intensity stats.ok_ewma stats.err_ewma);
    healthy = is_healthy (some info);
    sublabel = transport_of (some info);
  }

  unfoldable pub edge_to :
      Window → Number × Number → String → Number × Number → EdgeStats weights → GraphEdge floats
  unfolding color_for_stats opacity_for_intensity
  edge_to window (x1, y1) name (x2, y2) stats = record {
    id = "proxy->" <> name;
    from_id = proxy_id;
    to_id = name;
    x1 = x1;
    y1 = y1;
    x2 = x2;
    y2 = y2;
    width = width (intensity stats.ok_ewma stats.err_ewma) window;
    color = color_for_stats stats;
    opacity = opacity_for_intensity (intensity stats.ok_ewma stats.err_ewma);
  }

  pub record Scene : Type 0 where
    pub nodes : List (GraphNode floats)
    pub edges : List (GraphEdge floats)

  abbrev with_upstream : GraphNode floats → GraphEdge floats → Scene → Scene
  with_upstream n e scene = record { nodes = n ∷ scene.nodes; edges = e ∷ scene.edges }

  -- The loop over the routes, which skips a name without a position.
  unfoldable pub draw_routes :
      Window
      → Number × Number
      → Positions
      → List (String × EdgeStats weights)
      → List (String × RouteInfo)
      → Scene
  unfolding upstream_node edge_to
  draw_routes window start positions stats [] = record { nodes = []; edges = [] }
  draw_routes window start positions stats ((name, info) ∷ routes) =
      let rest = draw_routes window start positions stats routes in
      let s = or_else (lookup name stats) (no_stats weights) in
      elim (lookup name positions) [
        | none ↦ rest
        | some pos ↦
            with_upstream (upstream_node name info pos s) (edge_to window start name pos s) rest
      ]

  -- One render; `none` is the exception of a proxy without a position.
  unfoldable pub draw :
      Window → List (String × EdgeStats weights) → List (String × RouteInfo) → Option Scene
  unfolding proxy_node draw_routes
  draw window stats routes =
      let positions = layout routes in
      elim (lookup proxy_id positions) [
        | none ↦ none
        | some start ↦
            let others = draw_routes window start positions stats routes in
            some record { nodes = proxy_node start ∷ others.nodes; edges = others.edges }
      ]

  -- The element of a pulse: its colour, and where its animation starts and ends.
  pub record Pulse : Type 0 where
    pub color : Color
    pub start : Number × Number
    pub end : Number × Number

  -- `spawnPulse`: the layer is mounted or not, and `animate` of the browser works or throws; then
  -- the element is removed again.
  unfoldable pub spawn_pulse :
      (mounted animates : Bool) → Positions → String → TrafficStatus → Option Pulse
  spawn_pulse mounted animates positions name status = elim (lookup proxy_id positions) [
    | none ↦ none
    | some start ↦ elim (lookup name positions) [
      | none ↦ none
      | some end ↦
          if mounted && animates
          then some
              record { color = if is_ok_status status then ok else err; start = start; end = end }
          else none
    ]
  ]
