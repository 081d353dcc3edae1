-- ===== src/Config/Sending.antt =====
-- Which configurations the page sends.
use mcpxy.Prelude.{
  Bool, true, false, Option, none, some, ◌∷◌, ◌≡◌, ◌⊎◌, inl, inr, refl, ◌∙◌, arith, Bool-cases,
}
use mcpxy.Api.Json.{Json, Result, ok, err}
use mcpxy.Config.{
  Script, Validation, Call, get_config, post_validate, post_dry_run, post_apply, Waiting,
  validating, previewing, applying, reloading, Page, Event, loaded, typed, validate_clicked,
  preview_clicked, apply_clicked, validate_answered, preview_answered, apply_answered,
  reload_answered, truthy_json, parse_draft, checked, validate, preview, apply, answered, handle,
  resume,
}

module _ (script : Script) where
  -- The draft of the page is a configuration: it parses to a value that is not falsy.
  pub record Holds (p : Page) (config : Json) : Type 0 where
    pub parsed : script.parse p.draft ≡ ok config
    pub given : truthy_json script config ≡ true

  -- The event makes the page send the call.
  pub data Sends (p : Page) : Event → Call → Type 0 where
    for_validation :
        {config : Json}
        → p.busy ≡ false
        → Holds p config
        → Sends p validate_clicked (post_validate config)
    for_preview :
        {config : Json}
        → p.busy ≡ false
        → Holds p config
        → Sends p preview_clicked (post_dry_run config)
    for_apply :
        {config : Json}
        → p.busy ≡ false
        → Holds p config
        → Sends p (apply_clicked true) (post_apply config)
    for_reload :
        {out : Json} → p.waiting ≡ some applying → Sends p (apply_answered (ok out)) get_config

  -- The check of the draft, from what the draft parses to.
  draft-cases :
      (p : Page)
      → ((config : Json) × Holds p config) ⊎ (checked script (parse_draft script p).1 ≡ none)
  unfolding checked parse_draft
  draft-cases p = parsed (script.parse p.draft) refl
    where
      parsed :
          (r : Result Json)
          → script.parse p.draft ≡ r
          → ((config : Json) × Holds p config) ⊎ (checked script (parse_draft script p).1 ≡ none)
      parsed (ok config) e = elim (Bool-cases (truthy_json script config)) [
        | inl given ↦ inl (config, record { parsed = e; given = given })
        | inr falsy ↦ inr (ground arith)
      ]
      parsed (err thrown) e = inr (ground arith)

  validate-Holds :
      (p : Page) (config : Json)
      → Holds p config
      → (validate script p).sent ≡ post_validate config ∷ p.sent
  unfolding validate checked parse_draft
  validate-Holds p config v = ground (arith, v.parsed, v.given)

  validate_refused :
      (p : Page)
      → checked script (parse_draft script p).1 ≡ none
      → (validate script p).sent ≡ p.sent
  unfolding validate checked parse_draft
  validate_refused p h = ground arith

  preview-Holds :
      (p : Page) (config : Json)
      → Holds p config
      → (preview script p).sent ≡ post_dry_run config ∷ p.sent
  unfolding preview checked parse_draft
  preview-Holds p config v = ground (arith, v.parsed, v.given)

  preview_refused :
      (p : Page) → checked script (parse_draft script p).1 ≡ none → (preview script p).sent ≡ p.sent
  unfolding preview checked parse_draft
  preview_refused p h = ground arith

  apply-Holds :
      (p : Page) (config : Json)
      → Holds p config
      → (apply script true p).sent ≡ post_apply config ∷ p.sent
  unfolding apply checked parse_draft
  apply-Holds p config v = ground (arith, v.parsed, v.given)

  apply_refused :
      (p : Page) (confirmed : Bool)
      → checked script (parse_draft script p).1 ≡ none
      → (apply script confirmed p).sent ≡ p.sent
  unfolding apply checked parse_draft
  apply_refused p confirmed h = ground arith

  apply_unconfirmed : (p : Page) → (apply script false p).sent ≡ p.sent
  unfolding apply checked parse_draft
  apply_unconfirmed p = ground arith

  validate_answered_quiet :
      (p : Page) (wait : Option Waiting) (answer : Result Validation)
      → (resume script wait (validate_answered answer) p).sent ≡ p.sent
  unfolding answered
  validate_answered_quiet p none answer = refl
  validate_answered_quiet p (some validating) (ok out) = ground arith
  validate_answered_quiet p (some validating) (err e) = refl
  validate_answered_quiet p (some previewing) (ok out) = refl
  validate_answered_quiet p (some previewing) (err e) = refl
  validate_answered_quiet p (some applying) answer = refl
  validate_answered_quiet p (some reloading) (ok out) = refl
  validate_answered_quiet p (some reloading) (err e) = refl

  preview_answered_quiet :
      (p : Page) (wait : Option Waiting) (answer : Result Json)
      → (resume script wait (preview_answered answer) p).sent ≡ p.sent
  unfolding answered
  preview_answered_quiet p none answer = refl
  preview_answered_quiet p (some validating) (ok out) = ground arith
  preview_answered_quiet p (some validating) (err e) = refl
  preview_answered_quiet p (some previewing) (ok out) = refl
  preview_answered_quiet p (some previewing) (err e) = refl
  preview_answered_quiet p (some applying) answer = refl
  preview_answered_quiet p (some reloading) (ok out) = refl
  preview_answered_quiet p (some reloading) (err e) = refl

  reload_answered_quiet :
      (p : Page) (wait : Option Waiting) (answer : Result Json)
      → (resume script wait (reload_answered answer) p).sent ≡ p.sent
  unfolding answered
  reload_answered_quiet p none answer = refl
  reload_answered_quiet p (some validating) (ok out) = ground arith
  reload_answered_quiet p (some validating) (err e) = refl
  reload_answered_quiet p (some previewing) (ok out) = refl
  reload_answered_quiet p (some previewing) (err e) = refl
  reload_answered_quiet p (some applying) answer = refl
  reload_answered_quiet p (some reloading) (ok out) = refl
  reload_answered_quiet p (some reloading) (err e) = refl

  apply_answered_sent :
      (p : Page) (wait : Option Waiting) (answer : Result Json)
      → p.waiting ≡ wait
      → ((resume script wait (apply_answered answer) p).sent ≡ p.sent)
        ⊎ ((call : Call) × Sends p (apply_answered answer) call
            × ((resume script wait (apply_answered answer) p).sent ≡ call ∷ p.sent))
  unfolding answered
  apply_answered_sent p none answer w = inl refl
  apply_answered_sent p (some validating) answer w = inl refl
  apply_answered_sent p (some previewing) answer w = inl refl
  apply_answered_sent p (some applying) (ok out) w = inr (get_config, for_reload w, refl)
  apply_answered_sent p (some applying) (err e) w = inl refl
  apply_answered_sent p (some reloading) answer w = inl refl

  validate_free :
      (p : Page)
      → p.busy ≡ false
      → (handle script p validate_clicked).sent ≡ (validate script p).sent
  unfolding handle
  validate_free p free = ground arith

  validate_busy : (p : Page) → p.busy ≡ true → (handle script p validate_clicked).sent ≡ p.sent
  unfolding handle
  validate_busy p busy = ground arith

  preview_free :
      (p : Page) → p.busy ≡ false → (handle script p preview_clicked).sent ≡ (preview script p).sent
  unfolding handle
  preview_free p free = ground arith

  preview_busy : (p : Page) → p.busy ≡ true → (handle script p preview_clicked).sent ≡ p.sent
  unfolding handle
  preview_busy p busy = ground arith

  apply_free :
      (p : Page) (confirmed : Bool)
      → p.busy ≡ false
      → (handle script p (apply_clicked confirmed)).sent ≡ (apply script confirmed p).sent
  unfolding handle
  apply_free p confirmed free = ground arith

  apply_busy :
      (p : Page) (confirmed : Bool)
      → p.busy ≡ true
      → (handle script p (apply_clicked confirmed)).sent ≡ p.sent
  unfolding handle
  apply_busy p confirmed busy = ground arith

  -- Each event sends nothing or the one call that it is allowed to send: a draft goes out only
  -- when its button is clicked while no handler is under way, as the very value that it parses to
  -- and only if that is not falsy, to be applied only once the question is answered with yes; the
  -- configuration is asked for again only after a success of apply.
  pub handle-Sends :
      (p : Page) (e : Event)
      → ((handle script p e).sent ≡ p.sent)
        ⊎ ((call : Call) × Sends p e call × ((handle script p e).sent ≡ call ∷ p.sent))
  unfolding handle
  handle-Sends p (loaded (ok config)) = inl refl
  handle-Sends p (loaded (err e)) = inl refl
  handle-Sends p (typed text) = inl refl
  handle-Sends p validate_clicked = elim (Bool-cases p.busy) [
    | inl busy ↦ inl (validate_busy p busy)
    | inr free ↦ elim (draft-cases p) [
      | inl (config, v) ↦
          inr (_, for_validation free v, validate_free p free ∙ validate-Holds p config v)
      | inr h ↦ inl (validate_free p free ∙ validate_refused p h)
    ]
  ]
  handle-Sends p preview_clicked = elim (Bool-cases p.busy) [
    | inl busy ↦ inl (preview_busy p busy)
    | inr free ↦ elim (draft-cases p) [
      | inl (config, v) ↦
          inr (_, for_preview free v, preview_free p free ∙ preview-Holds p config v)
      | inr h ↦ inl (preview_free p free ∙ preview_refused p h)
    ]
  ]
  handle-Sends p (apply_clicked true) = elim (Bool-cases p.busy) [
    | inl busy ↦ inl (apply_busy p true busy)
    | inr free ↦ elim (draft-cases p) [
      | inl (config, v) ↦ inr (_, for_apply free v, apply_free p true free ∙ apply-Holds p config v)
      | inr h ↦ inl (apply_free p true free ∙ apply_refused p true h)
    ]
  ]
  handle-Sends p (apply_clicked false) = elim (Bool-cases p.busy) [
    | inl busy ↦ inl (apply_busy p false busy)
    | inr free ↦ inl (apply_free p false free ∙ apply_unconfirmed p)
  ]
  handle-Sends p (validate_answered answer) = inl (validate_answered_quiet p p.waiting answer)
  handle-Sends p (preview_answered answer) = inl (preview_answered_quiet p p.waiting answer)
  handle-Sends p (apply_answered answer) = apply_answered_sent p p.waiting answer refl
  handle-Sends p (reload_answered answer) = inl (reload_answered_quiet p p.waiting answer)
