-- ===== src/Tests/Links.antt =====
-- The addresses, and the pages that follow them, at concrete inputs.
use mcpxy.Prelude.{true, none, List, [], ◌∷◌, ◌++◌, ◌≡◌, is_some}
use mcpxy.Api.Json.{null, object, end, ok}
use mcpxy.Uri.Query.{parse_query, behind}
use mcpxy.Logs
use mcpxy.Logs.{LogEntry}
use mcpxy.Logs.Address.{read_as, parse_query-logs_path}
use mcpxy.Routes
use mcpxy.App.Navigation.{routed, links, is_listed, routed-links}

abbrev filtered_logs : Logs.Page
filtered_logs = record Logs.initial_page { level = "INFO"; upstream = "a&b=c" }

parse_query-logs_path_example :
    (filters : Logs.Filters) × ((Logs.handle filtered_logs Logs.blurred).in_flight
      ≡ filters ∷ filtered_logs.in_flight)
    × (parse_query (behind b'?' (Logs.logs_path filters))
        ≡ read_as "level" "INFO" ++ read_as "upstream" "a&b=c")
parse_query-logs_path_example = parse_query-logs_path filtered_logs

routed-links_example : is_some (routed true "/users") ≡ is_listed "/users" (links true)
routed-links_example = routed-links true "/users"

abbrev still : Routes.Page
still = record { routes = object end; busy = none; error = none; jobs = []; sent = [] }

abbrev one_restart : List Routes.Event
one_restart =
    Routes.restart_clicked "git"
    ∷ Routes.job_answered (Routes.acting Routes.restart "git") (ok null)
    ∷ Routes.timer
    ∷ []
