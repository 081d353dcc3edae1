-- ===== src/Graph/Polling.antt =====
-- The polling of the routes and the metrics in Graph.tsx.
use mcpxy.Prelude.{
  String, Bool, true, false, Option, none, some, List, ◌≡◌, ◌⊎◌, inl, inr, refl, foldl, arith,
  is_some, if◌then◌else◌,
}
use mcpxy.Api.Json.{Json, Result, ok, err, message_of, promise_all}

pub record Topology : Type 0 where
  pub routes : Json
  pub metrics : Option Json
  pub fatal_error : Option String
  pub cancelled : Bool

pub data Event : Type 0 where
  -- Both answers of one round, and which came first.
  polled : (metrics_first : Bool) → (routes metrics : Result Json) → Event
  unmounted : Event

unfoldable pub set_topology : Result (Json × Json) → Topology → Topology
set_topology (ok (routes, metrics)) t =
    if t.cancelled
    then t
    else record t { routes = routes; metrics = some metrics; fatal_error = none }
set_topology (err e) t = if t.cancelled then t else record t { fatal_error = some (message_of e) }

unfoldable pub handle : Topology → Event → Topology
unfolding set_topology promise_all
handle t (polled metrics_first routes metrics) =
    set_topology (promise_all metrics_first routes metrics) t
handle t unmounted = record t { cancelled = true }

abbrev pub run : Topology → List Event → Topology
run = foldl handle

-- One round as the graph keeps it: both answers together, or neither and an error.
abbrev pub IsRound : Topology → Topology → Result Json → Result Json → Type 0
IsRound before after routes metrics =
    ((r : Json) × (m : Json) × (routes ≡ ok r)
      × (metrics ≡ ok m)
      × (after.routes ≡ r)
      × (after.metrics ≡ some m)
      × (after.fatal_error ≡ none))
    ⊎ ((after.routes ≡ before.routes)
        × (after.metrics ≡ before.metrics)
        × (is_some after.fatal_error ≡ true))

-- A round of the polling changes the graph's topology and its metrics together or not at all: both
-- come from that round and clear the error, or both stay and an error is shown, whichever
-- answer came first. After the page is left, no round changes anything.
pub polled-IsRound :
    (t : Topology) (metrics_first : Bool) (routes metrics : Result Json)
    → t.cancelled ≡ false
    → IsRound t (handle t (polled metrics_first routes metrics)) routes metrics
      × (handle (handle t unmounted) (polled metrics_first routes metrics) ≡ handle t unmounted)
unfolding handle
polled-IsRound t first (ok r) (ok m) c =
    (inl (r, m, refl, refl, ground arith, ground arith, ground arith), refl)
polled-IsRound t first (ok r) (err f) c = (inr (ground arith, ground arith, ground arith), refl)
polled-IsRound t first (err e) (ok m) c = (inr (ground arith, ground arith, ground arith), refl)
polled-IsRound t first (err e) (err f) c = (inr (ground arith, ground arith, ground arith), refl)
