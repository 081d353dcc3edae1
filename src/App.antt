-- ===== src/App.antt =====
-- frontend/src/App.tsx: which of its views the dashboard shows. The state is that of the
-- component, with the stored token, the probes that are on their way and the requests that went
-- out. React runs the effect on `authed` behind each change of it; a probe that the effect's
-- clean-up has cancelled is dropped, so that its answer is no event.
pub mod Admission
pub mod Navigation
pub mod Probes
use mcpxy.Prelude.{
  ℕ, String, Bool, true, false, not, Option, none, some, List, [], ◌∷◌, ◌&&◌, ◌==◌, foldl, is_some,
  if◌then◌else◌,
}
use mcpxy.Api.Json.{Json, Result, ok, err}
use mcpxy.Api.Types.{OnboardingStatus, MeResponse, negsuc}
use mcpxy.Api.Client.{
  Storage, get_token, truthy_option, Request, get_request, Fetched, Parsed, receive,
}

pub data Probe : Type 0 where
  idle asking_me asking_config : Probe

pub record App : Type 0 where
  pub onboarding : Option OnboardingStatus
  pub resolved : Bool
  pub authed : Bool
  pub checking : Bool
  pub me : Option MeResponse
  pub storage : Storage
  -- The probe of the effect on `authed`, and the one for a session cookie.
  pub probe : Probe
  pub cookie_probe : Bool
  -- The requests of the probes, the latest first.
  pub sent : List Request

pub data View : Type 0 where
  connecting wizard login : View
  dashboard : (is_admin : Bool) → View

abbrev pub is_required : Option OnboardingStatus → Bool
is_required none = false
is_required (some status) = status.required

-- `me?.role === "admin"`
unfoldable pub is_admin : Option MeResponse → Bool
is_admin none = false
is_admin (some m) = m.role == "admin"

unfoldable pub view : App → View
unfolding is_admin
view a =
    if not a.resolved
    then connecting
    else if is_required a.onboarding
    then wizard
    else if not a.authed
    then login
    else if a.checking
    then connecting
    else dashboard (is_admin a.me)

unfoldable pub ask : String → App → App
ask path a = record a { sent = get_request path a.storage ∷ a.sent }

-- The effect on `authed`, for the value before and behind a rendering.
unfoldable pub authed_effect : Bool → App → App
unfolding ask
authed_effect before a = elim a.authed [
  | true ↦ if before then a else record (ask "/admin/api/authy/me" a) { probe = asking_me }
  | false ↦ if before then record a { checking = false; me = none; probe = idle } else a
]

unfoldable pub has_token : App → Bool
has_token a = truthy_option (get_token a.storage)

-- What sets state, and the effect behind it.
abbrev pub rendered : (App → App) → App → App
rendered update a = authed_effect a.authed (update a)

pub data Event : Type 0 where
  -- The answer to the request for the onboarding status; `none` if it was not 2xx.
  status_answered : Option OnboardingStatus → Event
  status_failed : Event
  cookie_answered me_answered config_answered : Fetched → Event
  onboarding_completed : Event
  -- `onAuthed` of the login form, with the storage that it has left.
  logged_in : Storage → Event
  -- `onSignOut`, which `logout` calls when it is done.
  signed_out : Storage → Event
  -- Another call of the client, which may have removed the token.
  storage_changed : Storage → Event

unfoldable pub legacy_me : MeResponse
legacy_me = record {
  user_id = negsuc 0;
  email = "admin";
  role = "admin";
  provider = "legacy";
  auth_mode = "legacy";
}

unfoldable pub initial_app : Storage → App
initial_app storage = record {
  onboarding = none;
  resolved = false;
  authed = false;
  checking = false;
  me = none;
  storage = storage;
  probe = idle;
  cookie_probe = false;
  sent = [];
}

unfoldable pub on_status : Option OnboardingStatus → App → App
unfolding has_token ask
on_status body a =
    let known = record a { onboarding = body; resolved = true } in
    if is_required body
    then known
    else if has_token a
    then record known { authed = true; checking = true }
    else record (ask "/admin/api/authy/me" known) { cookie_probe = true }

unfoldable pub on_status_failed : App → App
unfolding has_token
on_status_failed a = record a { resolved = true; authed = has_token a; checking = has_token a }

-- `JSON.parse`, and the cast of its value to `MeResponse`, which checks nothing.
module _ (parse_json : String → Parsed) (as_me : Json → MeResponse) where
  on_cookie : Result Json × Storage → App → App
  on_cookie (ok data_, storage) a = record a {
    me = some (as_me data_);
    authed = true;
    checking = false;
    storage = storage;
    cookie_probe = false;
  }
  on_cookie (err e, storage) a = record a {
    authed = false;
    checking = false;
    storage = storage;
    cookie_probe = false;
  }

  on_me : Result Json × Storage → App → App
  on_me (ok data_, storage) a = record a {
    me = some (as_me data_);
    checking = false;
    storage = storage;
    probe = idle;
  }
  on_me (err e, storage) a = record (ask "/admin/api/config" (record a { storage = storage })) {
    probe = asking_config;
  }

  on_config : Result Json × Storage → App → App
  on_config (ok data_, storage) a = record a {
    me = some legacy_me;
    checking = false;
    storage = storage;
    probe = idle;
  }
  on_config (err e, storage) a = record a {
    authed = false;
    checking = false;
    storage = storage;
    probe = idle;
  }

  -- An answer is an event only of a probe that is on its way, and a button only of its view.
  unfoldable pub handle : App → Event → App
  unfolding on_cookie on_me on_config
  handle a (status_answered body) = if a.resolved then a else rendered (on_status body) a
  handle a status_failed = if a.resolved then a else rendered on_status_failed a
  handle a (cookie_answered answer) =
      if a.cookie_probe then rendered (on_cookie (receive parse_json answer a.storage)) a else a
  handle a (me_answered answer) = elim a.probe [
    | asking_me ↦ rendered (on_me (receive parse_json answer a.storage)) a
    | _ ↦ a
  ]
  handle a (config_answered answer) = elim a.probe [
    | asking_config ↦ rendered (on_config (receive parse_json answer a.storage)) a
    | _ ↦ a
  ]
  handle a onboarding_completed = elim (view a) [
    | wizard ↦
        rendered
          (λ b. record b {
            onboarding = elim b.onboarding [
              | none ↦ none
              | some s ↦ some (record s { required = false; completed = true; active = false })
            ];
            authed = has_token b;
            checking = has_token b;
          })
          a
    | _ ↦ a
  ]
  handle a (logged_in storage) = elim (view a) [
    | login ↦ rendered (λ b. record b { authed = true; storage = storage }) a
    | _ ↦ a
  ]
  handle a (signed_out storage) = elim (view a) [
    | dashboard admin ↦ rendered (λ b. record b { authed = false; storage = storage }) a
    | _ ↦ a
  ]
  handle a (storage_changed storage) = record a { storage = storage }

  unfoldable pub run : App → List Event → App
  run a events = foldl handle a events
