-- ===== src/Traffic/Filters.antt =====
-- What the three filters of the table let through.
use mcpxy.Prelude.{
  true, none, some, ◌≡◌, ◌↔◌, ◌⊎◌, arith, truthy_iff, eq_iff, or_else, includes_iff, Contains,
}
use mcpxy.Api.Types.{TrafficRecord}
use mcpxy.Traffic.{Page, matches}

-- A record is shown exactly when each filter that is set accepts it: its upstream is the chosen
-- one, its method contains the typed text, its status is the chosen one.
pub matches_iff :
    (p : Page) (r : TrafficRecord)
    → (matches p r ≡ true) ↔ (
        ((p.upstream_filter ≡ "") ⊎ (r.upstream ≡ p.upstream_filter))
        × ((p.method_filter ≡ "") ⊎ Contains (or_else r.method "") p.method_filter)
        × ((p.status_filter ≡ none) ⊎ (p.status_filter ≡ some r.status)))
unfolding matches
matches_iff p r = ground (
  arith,
  truthy_iff p.upstream_filter,
  truthy_iff p.method_filter,
  eq_iff r.upstream p.upstream_filter,
  includes_iff (or_else r.method "") p.method_filter,
)
