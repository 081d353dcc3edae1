-- ===== src/Config/Applying.antt =====
-- What becomes of a draft that is applied, and when the buttons can be used.
use mcpxy.Prelude.{
  String, Bool, false, Option, none, some, List, [], ◌∷◌, ◌++◌, ◌≡◌, refl, arith, map, is_some,
}
use mcpxy.Api.Json.{Json, ok, err}
use mcpxy.Config.{
  Script, initial_page, Waiting, validating, previewing, applying, reloading, Page, Event, loaded,
  typed, validate_clicked, preview_clicked, apply_clicked, validate_answered, preview_answered,
  apply_answered, reload_answered, parse_draft, checked, validate, preview, apply, answered, handle,
  resume, run,
}

module _ (script : Script) where
  -- The draft is typed on while the page waits for the configuration.
  typing-reloading :
      (p : Page) (texts : List String) (config : Json)
      → p.waiting ≡ some reloading
      → let q = run script p (map typed texts ++ (reload_answered (ok config) ∷ [])) in
        (q.result ≡ none) × (q.draft ≡ script.print config) × (q.busy ≡ false)
  unfolding handle
  typing-reloading p [] config w = rw w (refl, refl, refl)
  typing-reloading p (text ∷ texts) config w =
      typing-reloading (record p { draft = text }) texts config w

  -- Where an apply and the loading after it succeed, the page ends with no report of the success
  -- and with the loaded configuration as the draft, whatever was typed in between.
  pub apply_report_lost :
      (p : Page) (out config : Json) (texts : List String)
      → p.waiting ≡ some applying
      → let q =
          run script p
            (apply_answered (ok out) ∷ (map typed texts ++ (reload_answered (ok config) ∷ []))) in
        (q.result ≡ none) × (q.draft ≡ script.print config) × (q.busy ≡ false)
  apply_report_lost p out config texts w =
      typing-reloading (handle script p (apply_answered (ok out))) texts config (reloads p out w)
    where
      reloads :
          (p : Page) (out : Json)
          → p.waiting ≡ some applying
          → (handle script p (apply_answered (ok out))).waiting ≡ some reloading
      reloads p out w = unfold handle in rw w refl

  abbrev IsSettled : Page → Type 0
  IsSettled p = p.busy ≡ is_some p.waiting

  validate-IsSettled : (p : Page) → IsSettled p → IsSettled (validate script p)
  unfolding validate checked parse_draft
  validate-IsSettled p v = ground arith

  preview-IsSettled : (p : Page) → IsSettled p → IsSettled (preview script p)
  unfolding preview checked parse_draft
  preview-IsSettled p v = ground arith

  apply-IsSettled :
      (p : Page) (confirmed : Bool) → IsSettled p → IsSettled (apply script confirmed p)
  unfolding apply checked parse_draft
  apply-IsSettled p confirmed v = ground arith

  answered-IsSettled :
      (p : Page) (wait : Option Waiting) (e : Event)
      → p.waiting ≡ wait
      → IsSettled p
      → IsSettled (resume script wait e p)
  unfolding answered
  answered-IsSettled p none e w v = v
  answered-IsSettled p (some validating) (validate_answered (ok out)) w v = ground arith
  answered-IsSettled p (some validating) (validate_answered (err e)) w v = refl
  answered-IsSettled p (some validating) e w v = v
  answered-IsSettled p (some previewing) (preview_answered (ok out)) w v = refl
  answered-IsSettled p (some previewing) (preview_answered (err e)) w v = refl
  answered-IsSettled p (some previewing) e w v = v
  answered-IsSettled p (some applying) (apply_answered (ok out)) w v = rw (v, w) refl
  answered-IsSettled p (some applying) (apply_answered (err e)) w v = refl
  answered-IsSettled p (some applying) e w v = v
  answered-IsSettled p (some reloading) (reload_answered (ok out)) w v = refl
  answered-IsSettled p (some reloading) (reload_answered (err e)) w v = refl
  answered-IsSettled p (some reloading) e w v = v

  handle-IsSettled : (p : Page) (e : Event) → IsSettled p → IsSettled (handle script p e)
  unfolding handle
  handle-IsSettled p (loaded (ok config)) v = v
  handle-IsSettled p (loaded (err e)) v = v
  handle-IsSettled p (typed text) v = v
  handle-IsSettled p validate_clicked v = ground (arith, validate-IsSettled p)
  handle-IsSettled p preview_clicked v = ground (arith, preview-IsSettled p)
  handle-IsSettled p (apply_clicked confirmed) v = ground (arith, apply-IsSettled p confirmed)
  handle-IsSettled p (validate_answered answer) v = answered-IsSettled p p.waiting _ refl v
  handle-IsSettled p (preview_answered answer) v = answered-IsSettled p p.waiting _ refl v
  handle-IsSettled p (apply_answered answer) v = answered-IsSettled p p.waiting _ refl v
  handle-IsSettled p (reload_answered answer) v = answered-IsSettled p p.waiting _ refl v

  run-IsSettled : (p : Page) (events : List Event) → IsSettled p → IsSettled (run script p events)
  run-IsSettled p [] v = v
  run-IsSettled p (e ∷ events) v = run-IsSettled (handle script p e) events (handle-IsSettled p e v)

  -- On any events the buttons are disabled exactly while a handler waits for an answer.
  pub busy-waiting :
      (events : List Event)
      → (run script initial_page events).busy ≡ is_some (run script initial_page events).waiting
  busy-waiting events = run-IsSettled initial_page events refl
