-- ===== src/Logs/Address.antt =====
-- The address from which the page asks for the entries.
use mcpxy.Prelude.{
  ℕ, String, List, [], ◌∷◌, ◌++◌, ◌≡◌, refl, ap, ◌∙◌, arith, map, truthy, ◌<>◌, if◌then◌else◌,
}
use mcpxy.Uri.{bytes_of, serialise}
use mcpxy.Uri.Query.{parse_query, pair_bytes, behind, behind-prefix, ends_in, parse_query-serialise}
use mcpxy.Logs.{Filters, Page, blurred, params_of, logs_path, refresh, handle}

behind_logs : (query : String) → behind b'?' ("/admin/api/logs?" <> query) ≡ query
unfolding ends_in
behind_logs query = behind-prefix b'?' "/admin/api/logs?" query refl

-- What a server reads of a field: nothing where the field is empty, else its name and its value.
abbrev pub read_as : (name value : String) → List (List ℕ × List ℕ)
read_as name value = if truthy value then (bytes_of name, bytes_of value) ∷ [] else []

map-params_of :
    (level upstream : String)
    → map pair_bytes (params_of (level, upstream))
      ≡ read_as "level" level ++ read_as "upstream" upstream
unfolding params_of
map-params_of level upstream = ground arith

-- When a filter's field is left, the page sends one more request, and the query of its address
-- reads, as a server reads it, as the level and the upstream that the page shows: the level first,
-- each under its own name and as the bytes of its text, whatever characters it has, and left out
-- where it is empty; and as nothing else.
pub parse_query-logs_path :
    (p : Page)
    → (filters : Filters) × ((handle p blurred).in_flight ≡ filters ∷ p.in_flight)
      × (parse_query (behind b'?' (logs_path filters))
          ≡ read_as "level" p.level ++ read_as "upstream" p.upstream)
unfolding handle refresh
parse_query-logs_path p = ((p.level, p.upstream), refl, reads (p.level, p.upstream))
  where
    reads :
        (filters : Filters)
        → parse_query (behind b'?' (logs_path filters))
          ≡ read_as "level" filters.0 ++ read_as "upstream" filters.1
    reads filters =
        unfold logs_path in
        ap parse_query (behind_logs (serialise (params_of filters)))
        ∙ parse_query-serialise (params_of filters)
        ∙ map-params_of filters.0 filters.1
