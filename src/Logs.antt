-- ===== src/Logs.antt =====
-- frontend/src/pages/Logs.tsx: the log entries and their two filters. Timestamps keep the text of
-- the number.
pub mod Address
pub mod Overlap
use mcpxy.Prelude.{
  String, Bool, true, false, Option, none, some, List, [], ◌∷◌, ◌++◌, ◌==◌, ◌&&◌, ◌<>◌, foldl,
  reverse, truthy, if◌then◌else◌,
}
use mcpxy.Api.Json.{Result, ok, err, message_of}
use mcpxy.Uri.{serialise}

pub record LogEntry : Type 0 where
  pub timestamp : String
  pub logger : String
  pub level : String
  pub message : String
  pub upstream : Option String

abbrev pub levels : List String
levels = "" ∷ "DEBUG" ∷ "INFO" ∷ "WARNING" ∷ "ERROR" ∷ []

unfoldable pub level_color : String → String
level_color level =
    if level == "ERROR"
    then "text-err"
    else if level == "WARNING"
    then "text-warn"
    else if level == "DEBUG"
    then "text-slate-500"
    else "text-slate-200"

-- The filters that a request was made with: the level and the upstream.
abbrev pub Filters : Type 0
Filters = String × String

pub record Page : Type 0 where
  pub items : List LogEntry
  pub level : String
  pub upstream : String
  pub error : Option String
  pub loading : Bool
  -- The requests without an answer, the latest first.
  pub in_flight : List Filters

pub data Event : Type 0 where
  refresh_clicked : Event
  level_picked upstream_typed : String → Event
  -- A filter's field is left.
  blurred : Event
  answered : Filters → Result (List LogEntry) → Event

unfoldable pub params_of : Filters → List (String × String)
params_of (level, upstream) =
    (if truthy level then ("level", level) ∷ [] else [])
    ++ (if truthy upstream then ("upstream", upstream) ∷ [] else [])

unfoldable pub logs_path : Filters → String
unfolding params_of
logs_path filters = "/admin/api/logs?" <> serialise (params_of filters)

-- Takes one such request out; `none` where there is none.
unfoldable pub take_request : Filters → List Filters → Option (List Filters)
take_request wanted [] = none
take_request wanted (held ∷ rest) =
    if held.0 == wanted.0 && held.1 == wanted.1
    then some rest
    else elim (take_request wanted rest) [ none ↦ none | some left ↦ some (held ∷ left) ]

unfoldable pub refresh : Page → Page
refresh p = record p { loading = true; in_flight = (p.level, p.upstream) ∷ p.in_flight }

unfoldable pub finish : Result (List LogEntry) → Page → Page
finish (ok entries) p = record p { items = reverse entries; error = none; loading = false }
finish (err e) p = record p { error = some (message_of e); loading = false }

unfoldable pub handle : Page → Event → Page
unfolding refresh finish take_request
handle p refresh_clicked = if p.loading then p else refresh p
handle p (level_picked s) = record p { level = s }
handle p (upstream_typed s) = record p { upstream = s }
handle p blurred = refresh p
handle p (answered filters result) = elim (take_request filters p.in_flight) [
  | none ↦ p
  | some left ↦ finish result (record p { in_flight = left })
]

abbrev pub run : Page → List Event → Page
run = foldl handle

-- The first render asks for the entries.
abbrev pub initial_page : Page
initial_page = record {
  items = [];
  level = "";
  upstream = "";
  error = none;
  loading = true;
  in_flight = ("", "") ∷ [];
}
