-- ===== src/Browse/Page/Toast.antt =====
-- The toast of a registration, and what the page makes of its answer.
use mcpxy.Prelude.{ℕ, String, none, List, [], ◌∷◌, ◌≡◌, ◌≤◌, ◌⊎◌, inl, refl, arith}
use mcpxy.Api.Json.{Result, ok, err}
use mcpxy.Api.Types.{ManualUpstreamResponse}
use mcpxy.Browse.Page.{
  Page, initial_page, Event, catalog_answered, unmounted, query_typed, category_picked,
  install_opened, install_named, variable_typed, install_clicked, install_closed, install_answered,
  manual_opened, manual_typed, manual_clicked, manual_closed, manual_answered, timer_fired,
  on_installed, answer_manual, handle, run,
}

-- A toast has a timer that will clear it.
abbrev pub IsAwaited : Page → Type 0
IsAwaited p = (p.manual_toast ≡ none) ⊎ (1 ≤ p.timers)

answer_manual-IsAwaited :
    (p : Page) (n : ℕ) (name : String) (answer : Result ManualUpstreamResponse)
    → IsAwaited p
    → IsAwaited (answer_manual n name answer p)
unfolding answer_manual on_installed
answer_manual-IsAwaited p n name answer h = ground arith

handle-IsAwaited : (p : Page) (e : Event) → IsAwaited p → IsAwaited (handle p e)
unfolding handle
handle-IsAwaited p (catalog_answered (ok c)) h = ground arith
handle-IsAwaited p (catalog_answered (err e)) h = ground arith
handle-IsAwaited p unmounted h = h
handle-IsAwaited p (query_typed s) h = h
handle-IsAwaited p (category_picked s) h = h
handle-IsAwaited p (install_opened entry) h = ground arith
handle-IsAwaited p (install_named name) h = ground arith
handle-IsAwaited p (variable_typed name value) h = ground arith
handle-IsAwaited p install_clicked h = ground arith
handle-IsAwaited p install_closed h = h
handle-IsAwaited p (install_answered n name answer) h = ground arith
handle-IsAwaited p (manual_opened blank) h = ground arith
handle-IsAwaited p (manual_typed form) h = ground arith
handle-IsAwaited p manual_clicked h = ground arith
handle-IsAwaited p manual_closed h = h
handle-IsAwaited p (manual_answered n name answer) h = answer_manual-IsAwaited p n name answer h
handle-IsAwaited p timer_fired h = ground arith

run-IsAwaited : (p : Page) (events : List Event) → IsAwaited p → IsAwaited (run p events)
run-IsAwaited p [] h = h
run-IsAwaited p (e ∷ events) h = run-IsAwaited (handle p e) events (handle-IsAwaited p e h)

-- Whatever happens on the page, a toast that is shown has a timer on its way that will clear it.
pub initial_page-IsAwaited : (events : List Event) → IsAwaited (run initial_page events)
unfolding initial_page
initial_page-IsAwaited events = run-IsAwaited initial_page events (inl refl)

abbrev pub without_warning : ManualUpstreamResponse → ManualUpstreamResponse
without_warning res = record res { warning = none }
