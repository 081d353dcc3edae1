-- ===== src/Logs/Overlap.antt =====
-- Requests for the log entries that overlap.
use mcpxy.Prelude.{String, false, none, List, [], ◌∷◌, ◌≡◌, ◌≢◌, arith, reverse, eq_iff, eq_refl}
use mcpxy.Api.Json.{ok}
use mcpxy.Logs.{LogEntry, Page, refresh_clicked, level_picked, blurred, answered, handle, run}

-- Where another level is picked and its field left while a request is under way, and the answers
-- come in the other order, the page ends with the entries of the first request below the level
-- of the second. The two levels differ, and no other request is under way.
pub late_answer :
    (p : Page) (level : String) (first second : List LogEntry)
    → p.loading ≡ false
    → p.in_flight ≡ []
    → p.level ≢ level
    → let q = run p (
        refresh_clicked
        ∷ level_picked level
        ∷ blurred
        ∷ answered (level, p.upstream) (ok second)
        ∷ answered (p.level, p.upstream) (ok first)
        ∷ []) in
      (q.items ≡ reverse first)
      × (q.level ≡ level)
      × (q.error ≡ none)
      × (q.loading ≡ false)
      × (q.in_flight ≡ [])
unfolding handle
late_answer p level first second l f n = ground (
  arith,
  eq_refl level,
  eq_refl p.upstream,
  eq_refl p.level,
  eq_iff p.level level,
  eq_iff level p.level,
)
