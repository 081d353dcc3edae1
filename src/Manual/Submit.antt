-- ===== src/Manual/Submit.antt =====
-- `submit` of AddManuallyDialog.tsx: what the dialog shows while a registration runs and behind it.
use mcpxy.Prelude.{
  String, Bool, true, false, not, Option, none, some, ◌||◌, ◌≡◌, ◌≢◌, ◌↔◌, ◌⊎◌, inl, arith, ◌<>◌,
  show, truthy, truthy-append, refl, if◌then◌else◌,
}
use mcpxy.Api.Json.{api_error, error, Result, ok, err}
use mcpxy.Api.Types.{ManualUpstreamResponse}
use mcpxy.Numbers.{Numbers}
use mcpxy.Manual.Payload.{Form, ManualUpstreamConfig, build_payload, can_submit}

-- The rest of the dialog's state.
pub record Progress : Type 0 where
  pub busy : Bool
  pub error : Option String
  pub result : Option String
  pub warning : Option String

-- `ManualUpstreamRequest`
pub record ManualUpstreamRequest (numbers : Numbers) : Type 0 where
  pub name : String
  pub config : ManualUpstreamConfig numbers
  pub replace : Bool

-- The part of `submit` before the `await`. Both transports have a payload, so the branch that
-- reports "could not build upstream payload" is never taken.
unfoldable pub submit_start : Progress → Progress
submit_start p = record { busy = true; error = none; result = none; warning = none }

unfoldable pub submit_body : (numbers : Numbers) → Form → Bool → ManualUpstreamRequest numbers
submit_body numbers f replace = record {
  name = f.name;
  config = build_payload numbers f;
  replace = replace;
}

-- `s || fallback` of an optional text.
abbrev text_or : Option String → String → String
text_or none fallback = fallback
text_or (some s) fallback = if truthy s then s else fallback

abbrev has_text : Option String → Bool
has_text none = false
has_text (some s) = truthy s

-- The part behind the `await`, with the name that the call was made for; the second component
-- tells whether `onInstalled(name)` runs.
unfoldable pub submit_done : String → Result ManualUpstreamResponse → Progress → Progress × Bool
submit_done name (ok res) p =
    if res.applied
    then (
      if has_text res.warning
          then record p {
            busy = false;
            result = some ("Registered upstream '" <> name <> "', but it may not be working:");
            warning = res.warning;
          }
          else record p { busy = false; result = some ("Registered upstream '" <> name <> "'.") },
      true,
    )
    else (
      record p {
        busy = false;
        error = some (text_or res.error "registration returned applied=false");
      },
      false,
    )
submit_done name (err (api_error status message)) p =
    (record p { busy = false; error = some (show status <> ": " <> message) }, false)
submit_done name (err (error message)) p = (record p { busy = false; error = some message }, false)

-- `disabled` of the button.
unfoldable pub submit_disabled : Form → Progress → Bool
submit_disabled f p = not (can_submit f) || p.busy || has_text p.result

-- One registration, from the click to the answer.
abbrev pub attempt : String → Result ManualUpstreamResponse → Progress → Progress × Bool
attempt name answer p = submit_done name answer (submit_start p)

registered_text :
    (name : String)
    → (truthy ("Registered upstream '" <> name <> "', but it may not be working:") ≡ true)
      × (truthy ("Registered upstream '" <> name <> "'.") ≡ true)
registered_text name = (truthy-append _ _ refl, truthy-append _ _ refl)

-- Whatever the answer is, the dialog is idle again, and shows either a result or an error: a
-- result exactly when the server applied the registration, which is when `onInstalled` runs; a
-- warning comes only with a result. Behind a result the button stays disabled, whatever is typed.
pub attempt_outcome :
    (name : String) (answer : Result ManualUpstreamResponse) (p : Progress) (f : Form)
    → let (q, installed) = attempt name answer p in
      (q.busy ≡ false)
      × ((installed ≡ true)
          ↔ ((res : ManualUpstreamResponse) × (answer ≡ ok res) × (res.applied ≡ true)))
      × ((installed ≡ true) ↔ (q.result ≢ none))
      × ((installed ≡ false) ↔ (q.error ≢ none))
      × ((q.warning ≡ none) ⊎ (installed ≡ true))
      × ((installed ≡ false) ⊎ (submit_disabled f q ≡ true))
unfolding submit_start submit_done submit_disabled
attempt_outcome name (ok res) p f = (
  ground arith,
  (λ e. (res, refl, ground arith), λ w. ground arith),
  (λ e. ground arith, λ w. ground arith),
  (λ e. ground arith, λ w. ground arith),
  ground arith,
  ground (arith, registered_text name),
)
attempt_outcome name (err (api_error status message)) p f = (
  refl,
  (λ e. cc, λ w. ground arith),
  (λ e. cc, λ w. ground arith),
  (λ e q. cc, λ w. refl),
  inl refl,
  inl refl,
)
attempt_outcome name (err (error message)) p f = (
  refl,
  (λ e. cc, λ w. ground arith),
  (λ e. cc, λ w. ground arith),
  (λ e q. cc, λ w. refl),
  inl refl,
  inl refl,
)
