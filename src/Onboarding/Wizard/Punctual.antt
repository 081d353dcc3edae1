-- ===== src/Onboarding/Wizard/Punctual.antt =====
-- `Onboarding` of Onboarding.tsx where each refresh is answered in time.
use mcpxy.Prelude.{
  ℕ, Bool, true, false, Option, List, [], ◌∷◌, ◌≡◌, ◌≤◌, ◌⊎◌, inl, inr, refl, arith,
}
use mcpxy.Api.Types.{OnboardingStatus}
use mcpxy.Onboarding.Wizard.{
  Work, finishing, Wizard, token_set, initial_wizard, Event, auth_refreshed, swap_refreshed,
  refreshed, saved, answered, continued, handle, run,
}

-- The refresh is answered when the wizard is not past the step that it leads to.
abbrev pub IsOnTime : Wizard → Event → Type 0
IsOnTime w (auth_refreshed refresh) = w.step ≤ 4
IsOnTime w (swap_refreshed refresh) = w.step ≤ 3
IsOnTime w e = Unit

abbrev pub IsPunctual : Wizard → List Event → Type 0
IsPunctual w [] = Unit
IsPunctual w (e ∷ events) = IsOnTime w e × IsPunctual (handle w e) events

record Inv (w : Wizard) : Type 0 where
  pub last : w.step ≤ 5
  pub resumed : token_set w.status ≡ true → 4 ≤ w.step
  pub at_the_end : w.work ≡ finishing → w.step ≡ 5
  pub completed_last : w.completed ≡ true → w.step ≡ 5

initial_wizard-Inv : (status : Option OnboardingStatus) → Inv (initial_wizard status)
unfolding initial_wizard
initial_wizard-Inv status = ground arith

answered-Inv :
    (work : Work) (e : Event) (w : Wizard)
    → w.work ≡ work
    → IsOnTime w e
    → Inv w
    → Inv (answered work e w) × (w.step ≤ (answered work e w).step)
unfolding answered saved refreshed
answered-Inv work e w h t v = ground arith

continued-Inv :
    (refresh : Option OnboardingStatus) (w : Wizard)
    → w.step ≤ 4
    → Inv w
    → let after = continued w.continuing refresh w in Inv after × (w.step ≤ after.step)
unfolding continued refreshed
continued-Inv refresh w t v = ground arith

handle-Inv :
    (w : Wizard) (e : Event)
    → IsOnTime w e
    → Inv w
    → Inv (handle w e) × (w.step ≤ (handle w e).step)
unfolding handle
handle-Inv w e t v = ground (arith, answered-Inv w.work e w refl t v)

run-Inv :
    (w : Wizard) (events : List Event)
    → IsPunctual w events
    → Inv w
    → Inv (run w events) × (w.step ≤ (run w events).step)
unfolding run
run-Inv w [] p v = (v, omega arith)
run-Inv w (e ∷ events) (t, p) v =
    let (u, forth) = handle-Inv w e t v in
    let (last, further) = run-Inv (handle w e) events p u in (last, omega arith)

by_test : {b : Bool} {m n k : ℕ} → (b ≡ true → k ≤ m) → m ≤ n → (b ≡ false) ⊎ (k ≤ n)
by_test {b = true} h l = inr (omega (arith, h refl))
by_test {b = false} h l = inl refl

completed_on : {b : Bool} {m n : ℕ} → (b ≡ true → m ≡ n) → (b ≡ false) ⊎ (m ≡ n)
completed_on {b = true} h = inr (h refl)
completed_on {b = false} h = inl refl

-- If no refresh is answered when the wizard is past the step that it leads to, then the wizard never
-- goes back a step and never passes the fifth; once an admin token is known to be set it stays
-- behind the storage and authentication steps; and it calls `onComplete` only on the fifth step.
pub wizard_forward :
    (status : Option OnboardingStatus) (past future : List Event)
    → IsPunctual (initial_wizard status) past
    → IsPunctual (run (initial_wizard status) past) future
    → let w = run (initial_wizard status) past in
      let later = run w future in
      (w.step ≤ later.step)
      × (later.step ≤ 5)
      × ((token_set w.status ≡ false) ⊎ (4 ≤ later.step))
      × ((later.completed ≡ false) ⊎ (later.step ≡ 5))
wizard_forward status past future p q =
    let w = run (initial_wizard status) past in
    let (v, _) = run-Inv (initial_wizard status) past p (initial_wizard-Inv status) in
    let (u, forth) = run-Inv w future q v in
    (forth, u.last, by_test v.resumed forth, completed_on u.completed_last)
