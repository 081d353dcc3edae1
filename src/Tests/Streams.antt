-- ===== src/Tests/Streams.antt =====
-- The traffic stream from the server's answer to the table, at concrete inputs.
use mcpxy.Prelude.{
  String, Option, none, some, false, List, [], ◌∷◌, ◌≡◌, ◌≢◌, refl, trim, arith, take, map, eq_iff,
  eq_refl, ◌==◌, if◌then◌else◌,
}
use mcpxy.Api.Json.{Json, Items, field_of, null, object, array, nil, cons, end, field}
use mcpxy.Api.Types.{TrafficRecord, ok_status}
use mcpxy.Api.Sse.{items_of, record_of}
use mcpxy.Api.Sse.Connect.{Reads, answered, subscribe}
use mcpxy.Api.Sse.Frames.{Frame, heartbeat, record_frame, IsPayload}
use mcpxy.Traffic.{Page, capacity, clear_clicked, streamed, as_records, filtered, handle, run}
use mcpxy.Traffic.Pipeline.{payloads, run-subscribe}
use mcpxy.Traffic.View.{shown_upstream, cleared_filter_hidden}
use mcpxy.Traffic.Window.{newest_first}

abbrev call : TrafficRecord
call = record {
  timestamp = 1;
  upstream = "github";
  method = some "tools/call";
  request_id = null;
  status = ok_status;
  latency_ms = 5;
  request_bytes = 10;
  response_bytes = 20;
  error_code = none;
  client_ip = none;
}

abbrev as_call : Json → TrafficRecord
as_call json = call

abbrev open_page : Page
open_page = record {
  records = [];
  paused = false;
  upstream_filter = "git";
  method_filter = "";
  status_filter = none;
}

abbrev two_items : Items
two_items = cons null (cons null nil)

abbrev whole : Json
whole = object (field "items" (array two_items) end)

-- A reading of JSON that knows the text of a snapshot and that of a record.
abbrev parse : String → Option Json
parse s = if s == "{}" then some whole else if s == "null" then some null else none

abbrev live : List Frame
live = heartbeat ∷ record_frame "null" ∷ []

abbrev reads : Reads
reads = record {
  chunks = "event: snapshot\ndata: {}\n\n: hea" ∷ "rtbeat\n\ndata: null\n\n" ∷ [];
  failure = none;
}

null-IsPayload : IsPayload "null"
unfolding trim
null-IsPayload = (ground arith, refl, refl)

object-IsPayload : IsPayload "{}"
unfolding trim
object-IsPayload = (ground arith, refl, refl)

whole_items : items_of whole ≡ some two_items
unfolding items_of field_of
whole_items = ground (arith, eq_refl "items")

run-subscribe_example :
    (run as_call open_page
      (map streamed (subscribe parse (answered 200 (some reads))).yielded)).records
    ≡ take capacity (newest_first as_call (payloads parse live) (as_records as_call two_items))
run-subscribe_example =
    run-subscribe parse as_call open_page "{}" whole two_items live 200 reads refl
      (object-IsPayload, (tt, (null-IsPayload, tt))) (tt, (tt, tt)) refl whole_items refl refl
      (omega arith)

github_is_not_git : call.upstream ≢ open_page.upstream_filter
github_is_not_git = λ e. ground (arith, eq_iff "github" "git")

cleared_filter_hidden_example :
    let cleared = handle as_call open_page clear_clicked in
    (shown_upstream cleared ≡ "")
    × (filtered (handle as_call cleared (streamed (record_of null))) ≡ [])
cleared_filter_hidden_example =
    cleared_filter_hidden as_call open_page null refl refl github_is_not_git
