-- ===== src/Traffic.antt =====
-- frontend/src/pages/Traffic.tsx: the table of live traffic, which the stream fills.
pub mod Window
pub mod Filters
pub mod Pipeline
pub mod View
use mcpxy.Prelude.{
  ℕ, String, Bool, true, false, not, Option, none, some, List, [], ◌∷◌, ◌&&◌, ◌==◌, filter, take,
  foldl, truthy, or_else, includes, if◌then◌else◌,
}
use mcpxy.Api.Json.{Json, Items, nil, cons}
use mcpxy.Api.Types.{
  TrafficStatus, ok_status, error_status, timeout_status, denied_status, TrafficRecord,
}
use mcpxy.Api.Sse.{TrafficEvent, snapshot, record_of}

pub record Page : Type 0 where
  pub records : List TrafficRecord
  pub paused : Bool
  pub upstream_filter : String
  pub method_filter : String
  -- `none` is the empty choice.
  pub status_filter : Option TrafficStatus

unfoldable pub initial_page : Page
initial_page = record {
  records = [];
  paused = false;
  upstream_filter = "";
  method_filter = "";
  status_filter = none;
}

unfoldable pub same_status : TrafficStatus → TrafficStatus → Bool
same_status ok_status ok_status = true
same_status error_status error_status = true
same_status timeout_status timeout_status = true
same_status denied_status denied_status = true
same_status s t = false

-- The predicate of `filtered`.
unfoldable pub matches : Page → TrafficRecord → Bool
unfolding same_status
matches p r =
    if truthy p.upstream_filter && not (r.upstream == p.upstream_filter)
    then false
    else if truthy p.method_filter && not (includes (or_else r.method "") p.method_filter)
    then false
    else elim p.status_filter [ none ↦ true | some s ↦ same_status r.status s ]

abbrev pub filtered : Page → List TrafficRecord
filtered p = filter (matches p) p.records

-- `slice(0, 500)`
abbrev pub capacity : ℕ
capacity = 500

pub data Event : Type 0 where
  -- The answer to the first request; one that failed is no event.
  fetched : List TrafficRecord → Event
  streamed : TrafficEvent → Event
  pause_clicked clear_clicked : Event
  upstream_picked method_typed : String → Event
  status_picked : Option TrafficStatus → Event

-- The casts to `TrafficRecord`, which check nothing, are a parameter.
module _ (as_record : Json → TrafficRecord) where
  abbrev pub as_records : Items → List TrafficRecord
  as_records nil = []
  as_records (cons item items) = as_record item ∷ as_records items

  -- The body of the `for await`.
  unfoldable pub take_event : TrafficEvent → Page → Page
  take_event (snapshot items) p = if p.paused then p else record p { records = as_records items }
  take_event (record_of json) p =
      if p.paused then p else record p { records = take capacity (as_record json ∷ p.records) }

  unfoldable pub handle : Page → Event → Page
  unfolding take_event
  handle p (fetched items) = record p { records = items }
  handle p (streamed event) = take_event event p
  handle p pause_clicked = record p { paused = not p.paused }
  handle p clear_clicked = record p { records = [] }
  handle p (upstream_picked s) = record p { upstream_filter = s }
  handle p (method_typed s) = record p { method_filter = s }
  handle p (status_picked s) = record p { status_filter = s }

  abbrev pub run : Page → List Event → Page
  run = foldl handle
