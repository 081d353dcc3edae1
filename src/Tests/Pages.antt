-- ===== src/Tests/Pages.antt =====
-- The pages at concrete inputs.
use mcpxy.Prelude.{
  String, Bool, is_space, trim, filter, Option, none, some, [], ◌∷◌, ◌≡◌, ◌≢◌, ◌≤◌, refl, true,
  false, arith, ◌↔◌, ◌⊎◌, length, take,
}
use mcpxy.Api.Json.{Json, null, Result, ok}
use mcpxy.Api.Types.{
  TrafficRecord, ok_status, CatalogEntry, CatalogResponse, CatalogVariable, stdio,
}
use mcpxy.Api.Sse.{record_of}
use mcpxy.Api.Client.{get_token, receive, response}
use mcpxy.Traffic.{Page, capacity, streamed, matches}
use mcpxy.Traffic as Table
use mcpxy.Traffic.Window.{run-bound, run-arrivals, arrivals, newest_first}
use mcpxy.Login.{Gate, finish_legacy}
use mcpxy.Login.Outcome.{IsOk, finish_legacy_outcome}
use mcpxy.Browse.{filtered}
use mcpxy.Browse.Search.{IsSentence, more, last, IsShown, filtered_exact}
use mcpxy.Tests.Values.{parse_or_throw, full_storage, unauthorized}

abbrev call : TrafficRecord
call = record {
  timestamp = 1;
  upstream = "github";
  method = some "tools/call";
  request_id = null;
  status = ok_status;
  latency_ms = 5;
  request_bytes = 10;
  response_bytes = 20;
  error_code = none;
  client_ip = none;
}

abbrev as_call : Json → TrafficRecord
as_call json = call

abbrev table : Page
table = record {
  records = call ∷ [];
  paused = false;
  upstream_filter = "github";
  method_filter = "call";
  status_filter = some ok_status;
}

run-bound_example :
    length (Table.run as_call table (streamed (record_of null) ∷ [])).records ≤ capacity
run-bound_example = run-bound as_call table (streamed (record_of null) ∷ []) (tt, tt) (omega arith)

run-arrivals_example :
    (Table.run as_call table (arrivals as_call (null ∷ null ∷ []))).records
    ≡ take capacity (newest_first as_call (null ∷ null ∷ []) table.records)
run-arrivals_example = run-arrivals as_call table (null ∷ null ∷ []) (omega arith)

abbrev gate : Gate
gate = record {
  providers = none;
  email = "";
  password = "";
  legacy_token = "pasted";
  error = none;
  busy = false;
  storage = full_storage;
}

abbrev no_field : Json → Result (Option String)
no_field json = ok none

still_writable : (receive parse_or_throw (response unauthorized) full_storage).1.writable ≡ true
unfolding receive
still_writable = refl

finish_legacy_outcome_example :
    let (after, authed) =
      finish_legacy parse_or_throw no_field no_field (response unauthorized) gate in
    (after.busy ≡ false)
    × (((authed ≡ true)
          × IsOk (receive parse_or_throw (response unauthorized) full_storage).0
          × (after.storage ≡ (receive parse_or_throw (response unauthorized) full_storage).1))
        ⊎ ((authed ≡ false) × (get_token after.storage ≡ none) × (after.error ≢ none)))
finish_legacy_outcome_example =
    finish_legacy_outcome parse_or_throw no_field no_field (response unauthorized) gate
      still_writable

abbrev token_variable : CatalogVariable
token_variable = record {
  name = "TOKEN";
  description = "";
  required = true;
  default = none;
  secret = true;
}

abbrev github_entry : CatalogEntry
github_entry = record {
  id = "github";
  name = "GitHub";
  description = "issues";
  category = "dev";
  homepage = "";
  transport = stdio;
  install_hint = "";
  tags = "git" ∷ [];
  variables = token_variable ∷ [];
  command = none;
  args = none;
  url = none;
  env = none;
}

abbrev github_catalog : CatalogResponse
github_catalog = record {
  version = 1;
  updated_at = "";
  categories = [];
  entries = github_entry ∷ [];
}

two_words : IsSentence ("git" ∷ "issues" ∷ []) (trim " git  issues")
unfolding trim is_space
two_words =
    more "  " ((refl, (refl, (refl, tt))), λ e. cc) (refl, (refl, tt))
      (last ((refl, (refl, (refl, (refl, (refl, (refl, tt)))))), λ e. cc))

filtered_exact_example :
    (shows : CatalogEntry → Bool) × (filtered (λ s. s) (some github_catalog) " git  issues" "dev"
      ≡ filter shows github_catalog.entries)
    × ((entry : CatalogEntry)
        → (shows entry ≡ true) ↔ IsShown (λ s. s) "dev" ("git" ∷ "issues" ∷ []) entry)
filtered_exact_example =
    filtered_exact (λ s. s) github_catalog " git  issues" "dev" ("git" ∷ "issues" ∷ []) two_words
