-- ===== src/Overview/Polling.antt =====
-- The polling of the metrics and the health in Overview.tsx.
use mcpxy.Prelude.{Bool, true, Option, some, List, foldl, if◌then◌else◌}
use mcpxy.Api.Json.{Json, Result, ok, err, promise_all}

pub record Cards : Type 0 where
  pub metrics : Option Json
  pub health : Option Json
  pub cancelled : Bool

pub data Event : Type 0 where
  -- Both answers of one round, and which came first.
  polled : (health_first : Bool) → (metrics health : Result Json) → Event
  unmounted : Event

-- A failed round is tolerated.
unfoldable pub set_cards : Result (Json × Json) → Cards → Cards
set_cards (ok (metrics, health)) c =
    if c.cancelled then c else record c { metrics = some metrics; health = some health }
set_cards (err e) c = c

unfoldable pub handle : Cards → Event → Cards
unfolding set_cards promise_all
handle c (polled health_first metrics health) =
    set_cards (promise_all health_first metrics health) c
handle c unmounted = record c { cancelled = true }

abbrev pub run : Cards → List Event → Cards
run = foldl handle
