-- ===== src/Onboarding/Wizard/Progress.antt =====
-- When the wizard moves forward.
use mcpxy.Prelude.{Option, none, some, List, [], ◌∷◌, ◌≡◌, ◌≤◌, ◌⊎◌, refl, arith}
use mcpxy.Api.Types.{OnboardingStatus}
use mcpxy.Onboarding.Wizard.{
  Work, swapping, Wizard, initial_wizard, Event, swap_refreshed, auth_refreshed, refreshed, saved,
  answered, continued, handle, run,
}

-- The step is one of the five.
pub record Inv (w : Wizard) : Type 0 where
  pub first : 1 ≤ w.step
  pub last : w.step ≤ 5

pub initial_wizard-Inv : (status : Option OnboardingStatus) → Inv (initial_wizard status)
unfolding initial_wizard
initial_wizard-Inv status = ground arith

refreshed-Inv : (refresh : Option OnboardingStatus) (w : Wizard) → Inv w → Inv (refreshed refresh w)
unfolding refreshed
refreshed-Inv none w v = v
refreshed-Inv (some status) w v = ground arith

answered-Inv : (work : Work) (e : Event) (w : Wizard) → Inv w → Inv (answered work e w)
unfolding answered saved
answered-Inv work e w v = ground arith

handle-Inv : (w : Wizard) (e : Event) → Inv w → Inv (handle w e)
unfolding handle
handle-Inv w e v = ground (arith, answered-Inv w.work e w v)

pub run-Inv : (w : Wizard) (events : List Event) → Inv w → Inv (run w events)
unfolding run
run-Inv w [] v = v
run-Inv w (e ∷ events) v = run-Inv (handle w e) events (handle-Inv w e v)

-- A refresh whose continuation runs when its step has been left already: that behind the third
-- step takes the wizard from the fifth to the fourth, that behind the storage step to the third,
-- or to the fourth where the new status has the token.
abbrev pub GoesBack : Event → Wizard → Wizard → Type 0
GoesBack (auth_refreshed refresh) w v = (1 ≤ w.continuing) × (w.step ≡ 5) × (v.step ≡ 4)
GoesBack (swap_refreshed refresh) w v =
    (w.work ≡ swapping) × (4 ≤ w.step) × (3 ≤ v.step) × (v.step ≤ 4)
GoesBack e w v = ⊥

refreshed-step-le :
    (refresh : Option OnboardingStatus) (w : Wizard) → w.step ≤ (refreshed refresh w).step
unfolding refreshed
refreshed-step-le none w = omega arith
refreshed-step-le (some status) w = ground arith

answered-step :
    (work : Work) (e : Event) (w : Wizard)
    → w.work ≡ work
    → Inv w
    → (w.step ≤ (answered work e w).step) ⊎ GoesBack e w (answered work e w)
unfolding answered saved refreshed
answered-step work e w h v = ground arith

continued-step :
    (refresh : Option OnboardingStatus) (w : Wizard)
    → Inv w
    → let v = continued w.continuing refresh w in
      (w.step ≤ v.step) ⊎ ((1 ≤ w.continuing) × (w.step ≡ 5) × (v.step ≡ 4))
unfolding continued refreshed
continued-step refresh w v = ground arith

handle-step :
    (w : Wizard) (e : Event) → Inv w → (w.step ≤ (handle w e).step) ⊎ GoesBack e w (handle w e)
unfolding handle
handle-step w e v = ground (arith, answered-step w.work e w refl v)

-- On any events the step is one of the five, and an event never takes the wizard back but for two:
-- the refresh behind the third step, which is not awaited, takes it from the fifth step to the
-- fourth, and the refresh behind the storage step takes it to the third, or the fourth, where it is
-- past the third already.
pub wizard_steps :
    (status : Option OnboardingStatus) (past : List Event) (e : Event)
    → let w = run (initial_wizard status) past in
      (1 ≤ w.step) × (w.step ≤ 5) × ((w.step ≤ (handle w e).step) ⊎ GoesBack e w (handle w e))
wizard_steps status past e =
    let w = run (initial_wizard status) past in
    let v = run-Inv (initial_wizard status) past (initial_wizard-Inv status) in
    (v.first, v.last, handle-step w e v)
