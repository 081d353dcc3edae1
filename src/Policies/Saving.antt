-- ===== src/Policies/Saving.antt =====
-- What saving does to the page.
use mcpxy.Prelude.{true, false, none, List, [], ◌∷◌, ◌≡◌, refl, arith, All}
use mcpxy.Numbers.{Numbers}
use mcpxy.Api.Json.{ok}
use mcpxy.Policies.{CardEdit}
use mcpxy.Policies.Page.{
  Applied, Page, Event, loaded, global_edited, upstream_edited, upstream_removed, name_typed,
  add_clicked, save_clicked, save_answered, handle, run,
}

module _ (numbers : Numbers) where
  -- An edit that is made while a save is on its way is lost when the save succeeds: the page loads
  -- the stored configuration again, which is the one that was sent, and no error is shown; the
  -- report of the success is gone with it.
  pub edit_during_save_lost :
      (p : Page numbers) (e : CardEdit numbers) (out : Applied)
      → p.busy ≡ false
      → out.applied ≡ true
      → let q =
          run numbers p
            (save_clicked ∷ global_edited e ∷ save_answered (ok out) ∷ loaded (ok p.config) ∷ []) in
        (q.config ≡ p.config)
        × (q.sent ≡ p.config ∷ p.sent)
        × (q.feedback ≡ none)
        × (q.busy ≡ false)
  unfolding handle
  edit_during_save_lost p e out b a = rw (b, handle) (refl, refl, refl, refl)

  -- While a save is on its way no second one is sent, whatever else happens on the page.
  abbrev pub IsUnanswered : Event numbers → Type 0
  IsUnanswered (save_answered answer) = ⊥
  IsUnanswered _ = Unit

  handle-busy :
      (p : Page numbers) (e : Event numbers)
      → IsUnanswered e
      → p.busy ≡ true
      → ((handle numbers p e).busy ≡ true) × ((handle numbers p e).sent ≡ p.sent)
  unfolding handle
  handle-busy p (loaded answer) u b = ground arith
  handle-busy p (global_edited e) u b = (b, refl)
  handle-busy p (upstream_edited name e) u b = (b, refl)
  handle-busy p (upstream_removed name) u b = (b, refl)
  handle-busy p (name_typed s) u b = (b, refl)
  handle-busy p add_clicked u b = ground arith
  handle-busy p save_clicked u b = ground arith
  handle-busy p (save_answered answer) u b = absurd u

  -- Until a save is answered nothing is sent again, whatever is loaded, edited or clicked.
  pub run-busy :
      (p : Page numbers) (events : List (Event numbers))
      → All IsUnanswered events
      → p.busy ≡ true
      → (run numbers p events).sent ≡ p.sent
  run-busy p [] h b = refl
  run-busy p (e ∷ events) (h, hs) b =
      let (still, same) = handle-busy p e h b in
      rw (run-busy (handle numbers p e) events hs still) same
