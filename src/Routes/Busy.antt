-- ===== src/Routes/Busy.antt =====
-- The one slot that says which buttons are disabled.
use mcpxy.Prelude.{String, false, none, some, List, [], ◌∷◌, ◌≡◌, ◌≢◌, ◌⊎◌, arith, eq_iff, eq_refl}
use mcpxy.Api.Json.{Json, error, err}
use mcpxy.Routes.{
  post_restart, restart, Job, rediscovering, acting, refreshing, Page, Event, rediscover_clicked,
  restart_clicked, remove_clicked, job_answered, sentinel, is_busy, handle, run,
}

abbrev pub subject : Job → String
subject rediscovering = sentinel
subject (acting action name) = name
subject (refreshing action name) = name

-- At most one handler is under way, and the slot holds what it is about.
abbrev pub IsExact : Page → Type 0
IsExact p =
    ((p.jobs ≡ []) × (p.busy ≡ none))
    ⊎ ((job : Job) × (p.jobs ≡ job ∷ []) × (p.busy ≡ some (subject job)))

-- A click that starts a handler comes only while none is under way.
abbrev pub IsAlone : Event → Page → Type 0
IsAlone rediscover_clicked p = p.busy ≡ none
IsAlone (restart_clicked name) p = p.busy ≡ none
IsAlone (remove_clicked name confirmed) p = p.busy ≡ none
IsAlone e p = Unit

abbrev pub AreAlone : List Event → Page → Type 0
AreAlone [] p = Unit
AreAlone (e ∷ events) p = IsAlone e p × AreAlone events (handle p e)

restart_sent :
    (q : Page) (name : String)
    → is_busy name q.busy ≡ false
    → (handle q (restart_clicked name)).sent ≡ post_restart name ∷ q.sent
unfolding handle
restart_sent q name free = ground arith

abbrev pub two_restarts : Page → String → String → String → Page
two_restarts p first second message = run p (
    restart_clicked first
    ∷ restart_clicked second
    ∷ job_answered (acting restart first) (err (error message))
    ∷ [])

two_restarts_busy :
    (p : Page) (first second message : String)
    → first ≢ second
    → is_busy first p.busy ≡ false
    → is_busy second (two_restarts p first second message).busy ≡ false
unfolding handle
two_restarts_busy p first second message n free =
    ground (arith, eq_iff first second, eq_iff second first, eq_refl first)

-- Where a second upstream is restarted before the restart of a first one has failed, the failure
-- empties the slot: the restart of the second is under way, its button can be clicked, and a click
-- sends the restart once more. The two names differ, and the first row's button was not disabled.
pub overlap_frees :
    (p : Page) (first second message : String)
    → first ≢ second
    → is_busy first p.busy ≡ false
    → let q = two_restarts p first second message in
      (q.jobs ≡ acting restart second ∷ p.jobs)
      × (is_busy second q.busy ≡ false)
      × ((handle q (restart_clicked second)).sent ≡ post_restart second ∷ q.sent)
unfolding handle
overlap_frees p first second message n free = (
  ground (arith, eq_iff first second, eq_iff second first, eq_refl first),
  two_restarts_busy p first second message n free,
  restart_sent _ second (two_restarts_busy p first second message n free),
)
