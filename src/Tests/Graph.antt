-- ===== src/Tests/Graph.antt =====
-- The graph's flush at concrete inputs.
use mathlib.Core.Option
use mcpxy.Prelude.{
  String, some, ◌≢◌, All, any, length, map, arith, eq_iff, ◌==◌, ◌&&◌, ◌||◌, if◌then◌else◌, ℕ, suc,
  ◌+◌, true, none, List, [], ◌∷◌, ◌≡◌, foldl, ltb,
}
use mcpxy.Record.{lookup, HasDistinctKeys}
use mcpxy.Api.Json.{null, object, field, end, string}
use mcpxy.Api.Types.{TrafficRecord, ok_status, error_status}
use mcpxy.Names.Ranks.{rank}
use mcpxy.Graph.Layout.{RouteInfo, proxy_id, names_of, compute_layout}
use mcpxy.Graph.Layout.Places.{layout_places}
use mcpxy.Graph.Canvas.{
  Floats, proxy, warn, GraphNode, GraphEdge, traffic_graph, hover, entered, left,
}
use mcpxy.Graph.Canvas.Hover.{
  ringed, brighter, ids_if, keys_if, without_ring, without_opacity, traffic_graph_hovered,
}
use mcpxy.Graph.Scene.{Measures, Scene, layout, draw, spawn_pulse}
use mcpxy.Graph.Scene.Star.{ids_of, IsStar, IsAt, draw-IsStar}
use mcpxy.Graph.Scene.Along.{find_edge, along, spawn_pulse-along}
use mcpxy.Graph.{w60, Weights, initial_live, arrived, frame, Event, run}
use mcpxy.Graph.Batch.{counted, eager, counted-run}

abbrev counters : Weights
counters = record {
  Weight = ℕ;
  nothing = 0;
  one_more = suc;
  decay = λ window n. n;
  is_noise = λ a b. ltb (a + b) 1;
}

abbrev good : TrafficRecord
good = record {
  timestamp = 1;
  upstream = "git";
  method = none;
  request_id = null;
  status = ok_status;
  latency_ms = 1;
  request_bytes = 1;
  response_bytes = 1;
  error_code = none;
  client_ip = none;
}

abbrev bad : TrafficRecord
bad = record good { status = error_status }

abbrev busy_second : List (Event counters)
busy_second = arrived true good ∷ arrived true bad ∷ frame ∷ arrived true good ∷ []

counted-run_example :
    counted counters (run counters (initial_live counters) busy_second)
    ≡ foldl (eager counters) (counted counters (initial_live counters)) busy_second
counted-run_example =
    counted-run counters (initial_live counters) busy_second (tt, (tt, (tt, (tt, tt))))

-- Whole numbers in place of floating point.
abbrev whole_numbers : Floats
whole_numbers = record { Number = ℕ; from_nat = λ n. n; add = ◌+◌; negate = λ n. n }

abbrev measures : Measures counters whole_numbers
measures = record {
  center = (400, 300);
  ring = λ n index. (n, index);
  intensity = ◌+◌;
  is_idle = λ n. ltb n 1;
  is_faint = λ n. ltb n 2;
  many_errors = λ e n. ltb n (e + e);
  some_errors = λ e n. ltb 0 e;
  width = λ n window. n;
  radius = λ n. n;
}

abbrev healthy : RouteInfo
healthy = record { health = object (field "status" (string "ok") end) }

abbrev two_routes : List (String × RouteInfo)
two_routes = ("git", healthy) ∷ ("fs", record { health = null }) ∷ []

git_is_not_fs : ◌≢◌ {A = String} "fs" "git"
git_is_not_fs = λ e. ground (arith, eq_iff "fs" "git")

two_names : HasDistinctKeys two_routes
two_names = ((git_is_not_fs, tt), (tt, tt))

layout_places_example :
    let names = names_of two_routes in
    let positions = compute_layout measures.center measures.ring two_routes in
    All
      (λ name. lookup name positions ≡ some (measures.ring (length names) (rank name names)))
      names
    × (lookup proxy_id positions
        ≡ some (
            if any (λ name. name == proxy_id) names
            then measures.ring (length names) (rank proxy_id names)
            else measures.center))
layout_places_example = layout_places measures.center measures.ring two_routes two_names

draw-IsStar_example :
    (scene : Scene counters whole_numbers measures) × (draw counters whole_numbers measures w60 []
        two_routes
      ≡ some scene)
    × (ids_of measures scene.nodes ≡ proxy_id ∷ names_of two_routes)
    × IsStar measures scene.nodes scene.edges
    × All (IsAt measures (layout counters whole_numbers measures two_routes)) scene.nodes
draw-IsStar_example = draw-IsStar measures w60 [] two_routes two_names

git_is_not_proxy : ◌≢◌ {A = String} "git" proxy_id
git_is_not_proxy = λ e. ground (arith, eq_iff "git" proxy_id)

spawn_pulse-along_example :
    (scene : Scene counters whole_numbers measures) × (draw counters whole_numbers measures w60 []
        two_routes
      ≡ some scene)
    × (spawn_pulse counters whole_numbers measures true true
          (layout counters whole_numbers measures two_routes)
          "git"
          ok_status
        ≡ (if true && true
            then Option.map (along measures ok_status) (find_edge measures "git" scene.edges)
            else none))
spawn_pulse-along_example =
    spawn_pulse-along measures w60 [] two_routes "git" ok_status true true two_names
      git_is_not_proxy

abbrev hub : GraphNode whole_numbers
hub = record {
  id = "hub";
  kind = proxy;
  label = "hub";
  x = 0;
  y = 0;
  radius = 46;
  healthy = true;
  sublabel = none;
}

abbrev spoke : GraphEdge whole_numbers
spoke = record {
  id = "hub->git";
  from_id = "hub";
  to_id = "git";
  x1 = 0;
  y1 = 0;
  x2 = 1;
  y2 = 1;
  width = 2;
  color = warn;
  opacity = 85;
}

traffic_graph_hovered_example :
    let over = traffic_graph whole_numbers (hub ∷ []) (spoke ∷ []) (hover none (entered "hub")) in
    let away = traffic_graph whole_numbers (hub ∷ []) (spoke ∷ []) (hover (some "hub") left) in
    (ringed whole_numbers over.groups ≡ ids_if whole_numbers (λ n. "hub" == n.id) (hub ∷ []))
    × (ringed whole_numbers away.groups ≡ [])
    × (brighter whole_numbers over.lines away.lines
        ≡ keys_if whole_numbers (λ e. ("hub" == e.from_id) || ("hub" == e.to_id)) (spoke ∷ []))
    × (map (without_ring whole_numbers) over.groups ≡ map (without_ring whole_numbers) away.groups)
    × (map (without_opacity whole_numbers) over.lines
        ≡ map (without_opacity whole_numbers) away.lines)
traffic_graph_hovered_example =
    traffic_graph_hovered whole_numbers "hub" (hub ∷ []) (spoke ∷ []) (omega arith, tt)
