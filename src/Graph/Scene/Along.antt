-- ===== src/Graph/Scene/Along.antt =====
-- A pulse runs along the edge of its upstream.
use mathlib.Core.Option
use mcpxy.Prelude.{
  sym, String, Bool, false, Option, none, some, List, [], ◌∷◌, ◌≡◌, ◌≢◌, refl, ap, ◌∙◌, arith, All,
  any, inl, inr, ◌==◌, ◌&&◌, eq_iff, Bool-cases, if◌then◌else◌,
}
use mathlib.Core.Option.{some_inj}
use mcpxy.Record.{lookup, HasDistinctKeys}
use mcpxy.Api.Types.{TrafficStatus, is_ok_status}
use mcpxy.Graph.{Window, Weights, EdgeStats}
use mcpxy.Graph.Layout.{RouteInfo, proxy_id, names_of}
use mcpxy.Names.Ranks.{IsIn}
use mcpxy.Graph.Layout.Places.{layout_places, present, absent, lookup-absent, lookup-compute_layout}
use mcpxy.Graph.Canvas.{Floats, ok, err, GraphEdge}
use mcpxy.Graph.Scene.{
  Measures, Positions, layout, edge_to, Scene, draw_routes, draw, Pulse, spawn_pulse,
}
use mcpxy.Graph.Scene.Star.{HasPlace, places_of, around, draw-around}

module _ {weights : Weights} {floats : Floats} (measures : Measures weights floats) where
  abbrev pub find_edge : String → List (GraphEdge floats) → Option (GraphEdge floats)
  find_edge name [] = none
  find_edge name (e ∷ edges) = if e.to_id == name then some e else find_edge name edges

  -- From one end of an edge to the other, in the colour of a status.
  abbrev pub along : TrafficStatus → GraphEdge floats → Pulse weights floats measures
  along status e = record {
    color = if is_ok_status status then ok else err;
    start = (e.x1, e.y1);
    end = (e.x2, e.y2);
  }

  module _ (window : Window) (start : floats.Number × floats.Number)
      (stats : List (String × EdgeStats weights)) (status : TrafficStatus) (wanted : String) where
    find_edge-present :
        (positions : Positions weights floats measures) (routes : List (String × RouteInfo))
        (pos : floats.Number × floats.Number)
        → All (HasPlace measures positions) (names_of routes)
        → IsIn wanted (names_of routes)
        → lookup wanted positions ≡ some pos
        → Option.map (along status) (
            find_edge wanted
              (draw_routes weights floats measures window start positions stats routes).edges)
          ≡ some
              record { color = if is_ok_status status then ok else err; start = start; end = pos }
    unfolding draw_routes edge_to
    find_edge-present positions [] pos h m f = absurd m
    find_edge-present positions ((name, info) ∷ routes) pos ((own, e), h) m f =
        elim (Bool-cases (name == wanted)) [
          | inl same ↦
              let own_pos =
                some_inj.0
                  (sym e ∙ ap (λ n. lookup n positions) ((eq_iff name wanted).0 same) ∙ f) in
              rw (e, draw_routes, same)
                (ap
                  (λ p. some record {
                    color = if is_ok_status status then ok else err;
                    start = start;
                    end = p;
                  })
                  own_pos)
          | inr other ↦
              rw (e, draw_routes, other)
                (find_edge-present positions routes pos h (later m other) f)
        ]
      where
        later :
            IsIn wanted (names_of ((name, info) ∷ routes))
            → name == wanted ≡ false
            → IsIn wanted (names_of routes)
        later (inl is) other = absurd (ground (arith, eq_iff name wanted))
        later (inr in_) other = in_

    find_edge-absent :
        (positions : Positions weights floats measures) (routes : List (String × RouteInfo))
        → All (HasPlace measures positions) (names_of routes)
        → All (λ held. held ≢ wanted) (names_of routes)
        → find_edge wanted
            (draw_routes weights floats measures window start positions stats routes).edges
          ≡ none
    unfolding draw_routes edge_to
    find_edge-absent positions [] h d = refl
    find_edge-absent positions ((name, info) ∷ routes) ((own, e), h) (d, ds) =
        let other : name == wanted ≡ false = ground (arith, eq_iff name wanted) in
        rw (e, draw_routes, other) (find_edge-absent positions routes h ds)

  abbrev path :
      TrafficStatus
      → floats.Number × floats.Number
      → floats.Number × floats.Number
      → Pulse weights floats measures
  path status start end = record {
    color = if is_ok_status status then ok else err;
    start = start;
    end = end;
  }

  spawn_pulse-lookup :
      (positions : Positions weights floats measures) (name : String) (status : TrafficStatus)
      (mounted animates : Bool) {start : floats.Number × floats.Number}
      {found : Option (floats.Number × floats.Number)}
      → lookup proxy_id positions ≡ some start
      → lookup name positions ≡ found
      → spawn_pulse weights floats measures mounted animates positions name status
        ≡ (if mounted && animates then Option.map (path status start) found else none)
  unfolding spawn_pulse
  spawn_pulse-lookup positions name st mounted animates {found = none} e f =
      rw (e, spawn_pulse, f) ground arith
  spawn_pulse-lookup positions name st mounted animates {found = some end} e f =
      rw (e, spawn_pulse, f) refl

  spawn_pulse-around :
      (window : Window) (stats : List (String × EdgeStats weights))
      (routes : List (String × RouteInfo)) (name : String) (status : TrafficStatus)
      (mounted animates : Bool) {start : floats.Number × floats.Number}
      → HasDistinctKeys routes
      → name ≢ proxy_id
      → lookup proxy_id (layout weights floats measures routes) ≡ some start
      → spawn_pulse weights floats measures mounted animates
          (layout weights floats measures routes)
          name
          status
        ≡ (if mounted && animates
            then Option.map
                (along status)
                (find_edge name (around measures window stats routes start).edges)
            else none)
  spawn_pulse-around window stats routes name status mounted animates {start} h n e =
      let positions = layout weights floats measures routes in
      elim (Bool-cases (any (λ held. held == name) (names_of routes))) [
        | inl there ↦
            let m = present name (names_of routes) there in
            let f = lookup-compute_layout measures.center measures.ring routes name h m in
            spawn_pulse-lookup positions name status mounted animates e f
            ∙ rw
                (find_edge-present window start stats status name positions routes _
                  (places_of measures routes h) m f)
                refl
        | inr away ↦
            let d = absent name (names_of routes) away in
            spawn_pulse-lookup positions name status mounted animates e
              (lookup-absent measures.center measures.ring routes name d n)
            ∙ rw
                (find_edge-absent window start stats status name positions routes
                  (places_of measures routes h) d)
                refl
      ]

  -- A pulse is shown where the layer is mounted and the browser animates: it runs from end to end
  -- of the edge that the render of the same routes has drawn for its upstream, in the colour of the
  -- status, and an upstream without an edge has none, unless it is named like the proxy.
  pub spawn_pulse-along :
      (window : Window) (stats : List (String × EdgeStats weights))
      (routes : List (String × RouteInfo)) (name : String) (status : TrafficStatus)
      (mounted animates : Bool)
      → HasDistinctKeys routes
      → name ≢ proxy_id
      → (scene : Scene weights floats measures) × (draw weights floats measures window stats routes
          ≡ some scene)
        × (spawn_pulse weights floats measures mounted animates
              (layout weights floats measures routes)
              name
              status
            ≡ (if mounted && animates
                then Option.map (along status) (find_edge name scene.edges)
                else none))
  spawn_pulse-along window stats routes name status mounted animates h n =
      let at_proxy = (layout_places measures.center measures.ring routes h).1 in
      let scene = around measures window stats routes _ in
      (
        scene,
        draw-around measures window stats routes at_proxy,
        spawn_pulse-around window stats routes name status mounted animates h n at_proxy,
      )
