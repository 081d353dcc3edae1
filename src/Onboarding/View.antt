-- ===== src/Onboarding/View.antt =====
-- `Stepper` and the body of `Onboarding` in Onboarding.tsx: which step is marked, and which is shown.
use mcpxy.Prelude.{
  ℕ, suc, String, Bool, Option, none, some, List, [], ◌∷◌, ◌≡◌, ◌≤◌, arith, ltb, nat_eq, truthy,
  length, filter, if◌then◌else◌,
}
use mcpxy.Api.Types.{OnboardingStatus, OnboardingDatabaseInfo}
use mcpxy.Onboarding.Wizard.Progress.{run-Inv, initial_wizard-Inv}
use mcpxy.Onboarding.Wizard.{Wizard, Event, run, initial_wizard}

pub record StepPill : Type 0 where
  pub n : ℕ
  pub active : Bool
  pub done : Bool
  pub label : String

abbrev pill : ℕ → ℕ → String → StepPill
pill step n label = record { n = n; active = nat_eq step n; done = ltb n step; label = label }

unfoldable pub stepper : (step : ℕ) → List StepPill
stepper step =
    pill step 1 "Welcome"
    ∷ pill step 2 "Storage"
    ∷ pill step 3 "Authentication"
    ∷ pill step 4 "First server"
    ∷ pill step 5 "Finish"
    ∷ []

-- The card under the stepper; the other steps' cards read the wizard's `busy` too.
pub data Card : Type 0 where
  restart_required_card storage_step : (info : Option OnboardingDatabaseInfo) → Card
  welcome_step auth_step first_server_step finish_step no_card : Card

-- `status?.database`
unfoldable pub database_of : Option OnboardingStatus → Option OnboardingDatabaseInfo
database_of none = none
database_of (some status) = status.database

unfoldable pub card_of : Wizard → Card
unfolding database_of
card_of w =
    if w.needs_restart
    then restart_required_card (database_of w.status)
    else if nat_eq w.step 1
    then welcome_step
    else if nat_eq w.step 2
    then storage_step (database_of w.status)
    else if nat_eq w.step 3
    then auth_step
    else if nat_eq w.step 4
    then first_server_step
    else if nat_eq w.step 5
    then finish_step
    else no_card

-- The box of the error.
unfoldable pub error_box : Wizard → Option String
error_box w = elim w.error [ none ↦ none | some s ↦ if truthy s then some s else none ]

-- The step that a card belongs to.
abbrev pub step_of_card : Card → Option ℕ
step_of_card (restart_required_card info) = none
step_of_card (storage_step info) = some 2
step_of_card welcome_step = some 1
step_of_card auth_step = some 3
step_of_card first_server_step = some 4
step_of_card finish_step = some 5
step_of_card no_card = some 0

abbrev pub numbers_of : (StepPill → Bool) → List StepPill → List ℕ
numbers_of p [] = []
numbers_of p (q ∷ pills) = if p q then q.n ∷ numbers_of p pills else numbers_of p pills

active_numbers :
    (step : ℕ) → 1 ≤ step → step ≤ 5 → numbers_of (λ p. p.active) (stepper step) ≡ step ∷ []
unfolding stepper
active_numbers step h k = ground arith

done_count :
    (step : ℕ) → 1 ≤ step → step ≤ 5 → suc (length (filter (λ p. p.done) (stepper step))) ≡ step
unfolding stepper
done_count step h k = ground arith

card_step :
    (w : Wizard)
    → 1 ≤ w.step
    → w.step ≤ 5
    → step_of_card (card_of w) ≡ (if w.needs_restart then none else some w.step)
unfolding card_of
card_step w h k = ground arith

-- Whatever happens, exactly one step is marked as active and the steps before it as done, and the
-- card that is shown is the one of the active step, or asks for a restart.
pub stepper_agrees :
    (status : Option OnboardingStatus) (events : List Event)
    → let w = run (initial_wizard status) events in
      (numbers_of (λ p. p.active) (stepper w.step) ≡ w.step ∷ [])
      × (suc (length (filter (λ p. p.done) (stepper w.step))) ≡ w.step)
      × (step_of_card (card_of w) ≡ (if w.needs_restart then none else some w.step))
stepper_agrees status events =
    let w = run (initial_wizard status) events in
    let v = run-Inv (initial_wizard status) events (initial_wizard-Inv status) in
    (
      active_numbers w.step v.first v.last,
      done_count w.step v.first v.last,
      card_step w v.first v.last,
    )
