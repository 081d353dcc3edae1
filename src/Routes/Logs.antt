-- ===== src/Routes/Logs.antt =====
-- `UpstreamLogs` of Routes.tsx: the log entries below one upstream, and the addresses that the page
-- makes from an upstream's name.
use mcpxy.Prelude.{
  ℕ, ◌+◌, String, Bool, true, false, not, Option, none, some, List, ◌≡◌, refl, ◌<>◌, reverse,
  if◌then◌else◌,
}
use mcpxy.Api.Json.{Result, ok, err, message_of}
use mcpxy.Logs.{LogEntry}
use mcpxy.Uri.{encode_uri_component, component, bytes_of}
use mcpxy.Uri.Marks.{Avoids, is_mark, encode-Avoids, component-marks}
use mcpxy.Uri.Reading.{decode, decode-encode, component-IsSound}

unfoldable pub upstream_logs_path : String → String
upstream_logs_path name = "/admin/api/logs?upstream=" <> encode_uri_component name

unfoldable pub upstream_path : String → String
upstream_path name = "/admin/api/upstreams/" <> encode_uri_component name

pub record Panel : Type 0 where
  pub logs : Option (List LogEntry)
  pub is_open : Bool
  pub error : Option String
  -- How often the entries were asked for.
  pub asked : ℕ

pub data PanelEvent : Type 0 where
  toggled : PanelEvent
  logs_answered : Result (List LogEntry) → PanelEvent

unfoldable pub load : Result (List LogEntry) → Panel → Panel
load (ok entries) p = record p { logs = some (reverse entries); error = none }
load (err e) p = record p { error = some (message_of e) }

unfoldable pub toggle : Panel → Panel
toggle p = record p { is_open = not p.is_open; asked = if p.is_open then p.asked else p.asked + 1 }

unfoldable pub handle_panel : Panel → PanelEvent → Panel
unfolding load toggle
handle_panel p toggled = toggle p
handle_panel p (logs_answered answer) = load answer p

-- The part of an upstream's address behind the collection is one segment: it has no mark that
-- would end it, and a server that decodes it reads the bytes of the upstream's name.
pub upstream_path_segment :
    (name : String)
    → (segment : String) × (upstream_path name ≡ "/admin/api/upstreams/" <> segment)
      × Avoids b'/' segment
      × Avoids b'?' segment
      × Avoids b'#' segment
      × (decode false segment ≡ bytes_of name)
unfolding upstream_path
upstream_path_segment name = (
  encode_uri_component name,
  refl,
  avoids b'/' (unfold is_mark in refl),
  avoids b'?' (unfold is_mark in refl),
  avoids b'#' (unfold is_mark in refl),
  decode-encode component component-IsSound name,
)
  where
    avoids : (mark : ℕ) → is_mark mark ≡ true → Avoids mark (encode_uri_component name)
    avoids = encode-Avoids component component-marks name
