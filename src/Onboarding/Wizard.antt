-- ===== src/Onboarding/Wizard.antt =====
-- `Onboarding` of Onboarding.tsx: the five steps, and what moves between them. The buttons of a step
-- are there while the step is shown, but a continuation behind an `await` runs whichever step is
-- shown. React renders the updates of one continuation together, and runs the effect on `status`
-- behind them.
pub mod Progress
pub mod Punctual
use mcpxy.Prelude.{
  ℕ, zero, suc, String, Bool, true, false, Option, none, some, List, ◌&&◌, ltb, nat_eq, foldl, not,
  if◌then◌else◌,
}
use mcpxy.Api.Json.{Result, ok, err, Thrown, message_of}
use mcpxy.Api.Types.{OnboardingStatus, OnboardingSetDatabaseMode, hot_swap, restart_required}

-- What `busy` stands for: a handler of a step that waits. `swapping` is the refresh that
-- `onSwapped` awaits; the one behind `onNext` of the third step is not awaited and not busy.
pub data Work : Type 0 where
  idle testing saving swapping submitting installing finishing : Work

-- The step is the number that the source keeps, 1 to 5.
pub record Wizard : Type 0 where
  pub step : ℕ
  pub status : Option OnboardingStatus
  pub error : Option String
  pub busy : Bool
  pub needs_restart : Bool
  pub completed : Bool
  pub work : Work
  -- The refreshes behind `onNext` of the third step.
  pub continuing : ℕ

-- `status?.admin_token_set_at`: a time stamp of 0 would be falsy.
unfoldable pub token_set : Option OnboardingStatus → Bool
token_set none = false
token_set (some status) = elim status.admin_token_set_at [ none ↦ false | some t ↦ ltb 0 t ]

-- The effect that starts on the right step.
unfoldable pub resume : Wizard → Wizard
unfolding token_set
resume w = if token_set w.status && ltb w.step 4 then record w { step = 4 } else w

-- `setStatus(next)` of a refresh that succeeded, and the effect; a failed one changes nothing.
unfoldable pub refreshed : Option OnboardingStatus → Wizard → Wizard
unfolding resume
refreshed none w = w
refreshed (some status) w = resume (record w { status = some status })

unfoldable pub initial_wizard : Option OnboardingStatus → Wizard
unfolding resume
initial_wizard status = resume (record {
  step = 1;
  status = status;
  error = none;
  busy = false;
  needs_restart = false;
  completed = false;
  work = idle;
  continuing = 0;
})

pub data Event : Type 0 where
  -- The answer to the first request for the status, where none came with the page.
  status_loaded : Option OnboardingStatus → Event
  get_started : Event
  test_clicked test_answered : Event
  -- The skip is also what the save button does where there is nothing to save.
  storage_skipped save_clicked : Event
  -- `res.mode` of a response that is `ok`.
  save_answered : Result (Option OnboardingSetDatabaseMode) → Event
  swap_refreshed : Option OnboardingStatus → Event
  -- "Continue" of the third step, with the message by which the form is refused.
  continue_clicked : (refusal : Option String) → Event
  -- What is thrown, if anything, here and for an installation.
  submit_answered : (thrown : Option Thrown) → Event
  auth_refreshed : Option OnboardingStatus → Event
  server_skipped install_clicked : Event
  install_answered : (thrown : Option Thrown) → Event
  finish_clicked : Event
  finish_answered : Result OnboardingStatus → Event

-- An event that the body of step `n` can raise.
unfoldable pub on_step : ℕ → (Wizard → Wizard) → Wizard → Wizard
on_step n move w = if nat_eq w.step n && not w.needs_restart then move w else w

-- A button that is disabled while the wizard is busy.
unfoldable pub when_free : ℕ → (Wizard → Wizard) → Wizard → Wizard
unfolding on_step
when_free n move w = if w.busy then w else on_step n move w

abbrev pub go_to : ℕ → Wizard → Wizard
go_to n w = record w { step = n }

abbrev begin : Work → Wizard → Wizard
begin work w = record w { busy = true; error = none; work = work }

-- `finally { onBusy(false) }`
abbrev finish : Wizard → Wizard
finish w = record w { busy = false; work = idle }

abbrev fail : Thrown → Wizard → Wizard
fail e w = record (finish w) { error = some (message_of e) }

unfoldable pub refuse_or_submit : Option String → Wizard → Wizard
refuse_or_submit (some message) w = record w { error = some message }
refuse_or_submit none w = begin submitting w

-- `saveAndContinue` behind its call, with `onSwapped` up to its own.
unfoldable pub saved : Result (Option OnboardingSetDatabaseMode) → Wizard → Wizard
saved (ok (some restart_required)) w = record (finish w) { needs_restart = true }
saved (ok (some hot_swap)) w = record w { work = swapping }
saved (ok none) w = record (finish w) { error = some "Save failed for unknown reason" }
saved (err e) w = fail e w

-- A handler behind its `await`; an answer that no handler waits for does not come.
unfoldable pub answered : Work → Event → Wizard → Wizard
unfolding saved refreshed
answered testing test_answered w = finish w
answered saving (save_answered answer) w = saved answer w
answered swapping (swap_refreshed refresh) w = refreshed refresh (go_to 3 (finish w))
answered submitting (submit_answered none) w = record (finish w) { continuing = suc w.continuing }
answered submitting (submit_answered (some e)) w = fail e w
answered installing (install_answered none) w = go_to 5 (finish w)
answered installing (install_answered (some e)) w = fail e w
answered finishing (finish_answered (ok status)) w = record (finish w) { completed = true }
answered finishing (finish_answered (err e)) w = fail e w
answered work e w = w

-- `onNext` of the third step behind its `await`: `setStep(4)`, whichever step is shown.
unfoldable pub continued : ℕ → Option OnboardingStatus → Wizard → Wizard
unfolding refreshed
continued zero refresh w = w
continued (suc others) refresh w = refreshed refresh (go_to 4 (record w { continuing = others }))

unfoldable pub handle : Wizard → Event → Wizard
unfolding on_step when_free refuse_or_submit answered continued refreshed
handle w (status_loaded answer) = refreshed answer w
handle w get_started = on_step 1 (go_to 2) w
handle w test_clicked = when_free 2 (begin testing) w
handle w storage_skipped = when_free 2 (go_to 3) w
handle w save_clicked = when_free 2 (begin saving) w
handle w (continue_clicked refusal) = when_free 3 (refuse_or_submit refusal) w
handle w (auth_refreshed refresh) = continued w.continuing refresh w
handle w server_skipped = when_free 4 (go_to 5) w
handle w install_clicked = when_free 4 (begin installing) w
handle w finish_clicked = when_free 5 (begin finishing) w
handle w test_answered = answered w.work test_answered w
handle w (save_answered answer) = answered w.work (save_answered answer) w
handle w (swap_refreshed refresh) = answered w.work (swap_refreshed refresh) w
handle w (submit_answered answer) = answered w.work (submit_answered answer) w
handle w (install_answered answer) = answered w.work (install_answered answer) w
handle w (finish_answered answer) = answered w.work (finish_answered answer) w

unfoldable pub run : Wizard → List Event → Wizard
run w events = foldl handle w events
