-- ===== src/App/Admission.antt =====
-- Who gets to see the dashboard.
use mcpxy.Prelude.{String, Bool, true, false, none, List, [], ◌∷◌, ◌≡◌, ◌≢◌, ◌⊎◌, refl, arith, All}
use mcpxy.Api.Json.{Json, err, Thrown, api_error}
use mcpxy.Api.Types.{MeResponse}
use mcpxy.Api.Client.{Storage, is_ok, Fetched, rejected, response, Parsed, receive, safe_text}
use mcpxy.App.{
  App, idle, connecting, login, dashboard, is_required, view, ask, authed_effect, Event,
  status_answered, status_failed, cookie_answered, me_answered, config_answered,
  onboarding_completed, logged_in, signed_out, storage_changed, initial_app, on_status,
  on_status_failed, handle, run,
}

pub record Inv (a : App) : Type 0 where
  pub unresolved :
      a.resolved ≡ false → (a.authed ≡ false) × (a.cookie_probe ≡ false) × (a.onboarding ≡ none)
  pub required : is_required a.onboarding ≡ true → (a.authed ≡ false) × (a.cookie_probe ≡ false)
  pub out : a.authed ≡ false → (a.me ≡ none) × (a.checking ≡ false) × (a.probe ≡ idle)
  pub waiting : a.checking ≡ true → a.probe ≢ idle

initial_app-Inv : (storage : Storage) → Inv (initial_app storage)
unfolding initial_app
initial_app-Inv storage = ground arith

module _ (parse_json : String → Parsed) (as_me : Json → MeResponse) where
  handle-Inv : (a : App) (e : Event) → Inv a → Inv (handle parse_json as_me a e)
  unfolding handle view authed_effect on_status on_status_failed ask
  handle-Inv a (status_answered body) v = ground arith
  handle-Inv a status_failed v = ground arith
  handle-Inv a (cookie_answered answer) v = ground arith
  handle-Inv a (me_answered answer) v = ground arith
  handle-Inv a (config_answered answer) v = ground arith
  handle-Inv a onboarding_completed v = ground arith
  handle-Inv a (logged_in storage) v = ground arith
  handle-Inv a (signed_out storage) v = ground arith
  handle-Inv a (storage_changed storage) v = ground arith

  run-Inv : (a : App) (events : List Event) → Inv a → Inv (run parse_json as_me a events)
  unfolding run
  run-Inv a [] v = v
  run-Inv a (e ∷ events) v = run-Inv (handle parse_json as_me a e) events (handle-Inv a e v)

  view-connecting :
      (a : App) → Inv a → view a ≡ connecting → (a.resolved ≡ false) ⊎ (a.probe ≢ idle)
  unfolding view
  view-connecting a v h = ground arith

  abbrev pub reached : Storage → List Event → App
  reached storage events = run parse_json as_me (initial_app storage) events

  -- The page never waits for nothing: while it shows "Connecting to MCPxy...", the onboarding
  -- status or the answer to a probe is still to come.
  pub connecting-awaits :
      (storage : Storage) (events : List Event)
      → view (reached storage events) ≡ connecting
      → ((reached storage events).resolved ≡ false) ⊎ ((reached storage events).probe ≢ idle)
  connecting-awaits storage events =
      view-connecting (run parse_json as_me (initial_app storage) events)
        (run-Inv (initial_app storage) events (initial_app-Inv storage))

  -- No answer that is not 2xx, and no failed connection, tells who the user is.
  abbrev pub IsRefusal : Fetched → Type 0
  IsRefusal (rejected message) = Unit
  IsRefusal (response res) = is_ok res.status ≡ false

  abbrev pub IsRefused : Event → Type 0
  IsRefused (cookie_answered answer) = IsRefusal answer
  IsRefused (me_answered answer) = IsRefusal answer
  IsRefused (config_answered answer) = IsRefusal answer
  IsRefused _ = Unit

  receive-IsRefusal :
      (answer : Fetched) (s : Storage)
      → IsRefusal answer
      → (t : Thrown) × ((receive parse_json answer s).0 ≡ err t)
  unfolding receive
  receive-IsRefusal (rejected message) s h = (_, refl)
  receive-IsRefusal (response res) s h =
      (api_error res.status (safe_text parse_json res), ground arith)

  handle-me :
      (a : App) (e : Event) → IsRefused e → a.me ≡ none → (handle parse_json as_me a e).me ≡ none
  unfolding handle view authed_effect on_status on_status_failed ask
  handle-me a (status_answered body) h n = ground arith
  handle-me a status_failed h n = ground arith
  handle-me a (cookie_answered answer) h n =
      let (t, e) = receive-IsRefusal answer a.storage h in ground arith
  handle-me a (me_answered answer) h n =
      let (t, e) = receive-IsRefusal answer a.storage h in ground arith
  handle-me a (config_answered answer) h n =
      let (t, e) = receive-IsRefusal answer a.storage h in ground arith
  handle-me a onboarding_completed h n = ground arith
  handle-me a (logged_in storage) h n = ground arith
  handle-me a (signed_out storage) h n = ground arith
  handle-me a (storage_changed storage) h n = ground arith

  run-me :
      (a : App) (events : List Event)
      → All IsRefused events
      → a.me ≡ none
      → (run parse_json as_me a events).me ≡ none
  unfolding run
  run-me a [] h n = n
  run-me a (e ∷ events) (h, hs) n =
      run-me (handle parse_json as_me a e) events hs (handle-me a e h n)

  view-me : (a : App) → a.me ≡ none → view a ≢ dashboard true
  unfolding view
  view-me a n h = ground arith

  initial_app-me : (storage : Storage) → (initial_app storage).me ≡ none
  unfolding initial_app
  initial_app-me storage = refl

  -- The pages for administrators are never shown before the server has answered one of the probes
  -- with success, whatever token the browser holds and whatever the user does.
  pub admin_needs_answer :
      (storage : Storage) (events : List Event)
      → All IsRefused events
      → view (reached storage events) ≢ dashboard true
  admin_needs_answer storage events h =
      view-me (run parse_json as_me (initial_app storage) events)
        (run-me (initial_app storage) events h (initial_app-me storage))

  -- Signing out of the dashboard leads to the login form at once; the user is forgotten and no
  -- probe of the session is waited for.
  pub sign_out-login :
      (a : App) (storage : Storage) (admin : Bool)
      → view a ≡ dashboard admin
      → let b = handle parse_json as_me a (signed_out storage) in
        (view b ≡ login) × (b.me ≡ none) × (b.probe ≡ idle) × (b.storage ≡ storage)
  unfolding handle authed_effect view
  sign_out-login a storage admin h = ground arith
