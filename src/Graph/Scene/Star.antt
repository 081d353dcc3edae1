-- ===== src/Graph/Scene/Star.antt =====
-- The picture is a star: one node and one edge for each route, which meet.
use mcpxy.Prelude.{String, some, List, [], ◌∷◌, ◌≡◌, refl, ap, All, map}
use mcpxy.Record.{lookup, HasDistinctKeys}
use mcpxy.Graph.{Window, Weights, EdgeStats}
use mcpxy.Graph.Layout.{RouteInfo, proxy_id, names_of}
use mcpxy.Graph.Layout.Places.{layout_places}
use mcpxy.Graph.Canvas.{Floats, GraphNode, GraphEdge}
use mcpxy.Graph.Scene.{
  Measures, Positions, layout, proxy_node, upstream_node, edge_to, Scene, draw_routes, draw,
}

module _ {weights : Weights} {floats : Floats} (measures : Measures weights floats) where
  -- Each edge leads from a first node to the node at its place in a list, with their coordinates.
  abbrev pub IsJoined :
      GraphNode floats → List (GraphNode floats) → List (GraphEdge floats) → Type 0
  IsJoined first [] [] = Unit
  IsJoined first (n ∷ nodes) (e ∷ edges) =
      ((e.from_id ≡ first.id)
        × (e.x1 ≡ first.x)
        × (e.y1 ≡ first.y)
        × (e.to_id ≡ n.id)
        × (e.x2 ≡ n.x)
        × (e.y2 ≡ n.y))
      × IsJoined first nodes edges
  IsJoined first _ _ = ⊥

  abbrev pub ids_of : List (GraphNode floats) → List String
  ids_of = map (λ n. n.id)

  -- The nodes behind the first one.
  abbrev pub IsStar : List (GraphNode floats) → List (GraphEdge floats) → Type 0
  IsStar [] edges = ⊥
  IsStar (first ∷ nodes) edges = IsJoined first nodes edges

  abbrev pub HasPlace : Positions weights floats measures → String → Type 0
  HasPlace positions name =
      (pos : floats.Number × floats.Number) × (lookup name positions ≡ some pos)

  -- A node stands where the layout puts its id.
  abbrev pub IsAt : Positions weights floats measures → GraphNode floats → Type 0
  IsAt positions n = lookup n.id positions ≡ some (n.x, n.y)

  module _ (window : Window) (start : floats.Number × floats.Number)
      (stats : List (String × EdgeStats weights)) where
    draw_routes-star :
        (positions : Positions weights floats measures) (routes : List (String × RouteInfo))
        → All (HasPlace positions) (names_of routes)
        → let scene = draw_routes weights floats measures window start positions stats routes in
          (ids_of scene.nodes ≡ names_of routes)
          × IsJoined (proxy_node weights floats measures start) scene.nodes scene.edges
          × All (IsAt positions) scene.nodes
    unfolding draw_routes proxy_node upstream_node edge_to
    draw_routes-star positions [] h = (refl, tt, tt)
    draw_routes-star positions ((name, info) ∷ routes) ((pos, e), h) =
        let (ids, joined, places) = draw_routes-star positions routes h in
        rw (e, draw_routes)
          (
            ap (λ names. name ∷ names) ids,
            ((refl, refl, refl, refl, refl, refl), joined),
            (e, places),
          )

  All-HasPlace :
      (positions : Positions weights floats measures)
      (place : String → floats.Number × floats.Number) (names : List String)
      → All (λ name. lookup name positions ≡ some (place name)) names
      → All (HasPlace positions) names
  All-HasPlace positions place [] h = tt
  All-HasPlace positions place (name ∷ names) (e, h) =
      ((place name, e), All-HasPlace positions place names h)

  pub places_of :
      (routes : List (String × RouteInfo))
      → HasDistinctKeys routes
      → All (HasPlace (layout weights floats measures routes)) (names_of routes)
  places_of routes h =
      All-HasPlace (layout weights floats measures routes) _ (names_of routes)
        (layout_places measures.center measures.ring routes h).0

  -- The scene around a proxy that stands at a point.
  abbrev pub around :
      Window
      → List (String × EdgeStats weights)
      → List (String × RouteInfo)
      → floats.Number × floats.Number
      → Scene weights floats measures
  around window stats routes start =
      let others =
        draw_routes weights floats measures window start (layout weights floats measures routes)
          stats routes in
      record {
        nodes = proxy_node weights floats measures start ∷ others.nodes;
        edges = others.edges;
      }

  pub draw-around :
      (window : Window) (stats : List (String × EdgeStats weights))
      (routes : List (String × RouteInfo)) {start : floats.Number × floats.Number}
      → lookup proxy_id (layout weights floats measures routes) ≡ some start
      → draw weights floats measures window stats routes ≡ some (around window stats routes start)
  unfolding draw
  draw-around window stats routes e = rw (e, draw) refl

  -- Whatever the counters and the window are, a render of routes with distinct names succeeds and
  -- shows a star: the proxy's node and then one node for each route in order, each where the layout
  -- puts it, and for each route one edge from the proxy's node to the node of that route, with the
  -- coordinates of both.
  pub draw-IsStar :
      (window : Window) (stats : List (String × EdgeStats weights))
      (routes : List (String × RouteInfo))
      → HasDistinctKeys routes
      → (scene : Scene weights floats measures) × (draw weights floats measures window stats routes
          ≡ some scene)
        × (ids_of scene.nodes ≡ proxy_id ∷ names_of routes)
        × IsStar scene.nodes scene.edges
        × All (IsAt (layout weights floats measures routes)) scene.nodes
  unfolding proxy_node
  draw-IsStar window stats routes h =
      let at_proxy = (layout_places measures.center measures.ring routes h).1 in
      let positions = layout weights floats measures routes in
      let (ids, joined, at) =
        draw_routes-star window _ stats positions routes (places_of routes h) in
      (
        around window stats routes _,
        draw-around window stats routes at_proxy,
        ap (λ names. proxy_id ∷ names) ids,
        joined,
        (at_proxy, at),
      )
