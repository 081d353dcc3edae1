-- ===== src/Tests/Shown.antt =====
-- The forms and what they show, at concrete inputs.
use mcpxy.Prelude.{String, Option, none, some, true, false, List, [], ◌∷◌, ◌≡◌, inl, refl}
use mcpxy.Api.Json.{Json, Result, ok}
use mcpxy.Api.Types.{stdio, OnboardingDatabaseInfo, ManualUpstreamResponse}
use mcpxy.Api.Client.{response}
use mcpxy.Manual.Payload.{Form, bearer_auth, can_submit}
use mcpxy.Manual.Submit.{submit_body}
use mcpxy.Manual.Controls as Manual
use mcpxy.Manual.Controls.Shown.{submit_body-controls}
use mcpxy.Onboarding.Storage.{StorageForm, postgresql, mysql, build_body, driver_missing, is_sqlite}
use mcpxy.Onboarding.Storage.Controls as Storage
use mcpxy.Onboarding.Storage.Controls.{build_body-controls}
use mcpxy.Onboarding.Auth.{AuthForm, google, handle_submit}
use mcpxy.Onboarding.AuthControls as Auth
use mcpxy.Onboarding.AuthControls.{handle_submit-controls}
use mcpxy.Login.{Gate, ProvidersResponse}
use mcpxy.Login.Page as SignIn
use mcpxy.Login.Page.{Session, submitted, answered, with_password, run, IsWaiting, run-IsWaiting}
use mcpxy.Browse.Page as Catalog
use mcpxy.Tests.Values.{port_numbers, parse_or_throw, full_storage, unauthorized}

abbrev stdio_form : Form
stdio_form = record {
  name = "git";
  transport = stdio;
  command = "uvx";
  args_text = "";
  stdio_env = [];
  queue_size = "";
  url = "";
  timeout_s = "";
  http_headers = [];
  auth_type = bearer_auth;
  bearer_token = "secret";
  api_key_header = "";
  api_key_value = "";
  basic_user = "";
  basic_pass = "";
  oauth_issuer = "";
  oauth_auth_endpoint = "";
  oauth_token_endpoint = "";
  oauth_client_id = "";
  oauth_client_secret = "";
  oauth_scopes = "";
  oauth_dynamic_reg = false;
}

-- The hidden fields differ.
abbrev retyped_form : Form
retyped_form = record stdio_form { url = "https://example.com"; bearer_token = "" }

same_manual : Manual.controls stdio_form false ≡ Manual.controls retyped_form false
unfolding Manual.controls
same_manual = refl

submit_body-controls_example :
    (submit_body port_numbers stdio_form false ≡ submit_body port_numbers retyped_form false)
    × (can_submit stdio_form ≡ can_submit retyped_form)
submit_body-controls_example =
    submit_body-controls port_numbers stdio_form retyped_form false false same_manual

abbrev two_drivers : Option OnboardingDatabaseInfo
two_drivers = some record {
  current_url_masked = "sqlite:///state/mcpxy.db";
  current_dialect = "sqlite";
  is_default = true;
  bootstrap_file_present = false;
  available_dialects = "sqlite" ∷ "postgresql" ∷ "mysql" ∷ [];
}

-- A pasted URL, whose dialect is not shown.
abbrev pasted : StorageForm
pasted = record {
  dialect = postgresql;
  host = "localhost";
  port = "5432";
  database = "mcpxy";
  user = "";
  password = "";
  sslmode = "";
  raw_url = "mysql://db";
  using_raw = true;
  ack = true;
  test_result = none;
}

abbrev pasted_elsewhere : StorageForm
pasted_elsewhere = record pasted { dialect = mysql }

pasted_remote : is_sqlite pasted.dialect ≡ false
unfolding is_sqlite
pasted_remote = refl

pasted_driver : driver_missing two_drivers pasted ≡ false
unfolding driver_missing
pasted_driver = refl

same_storage : Storage.controls two_drivers pasted ≡ Storage.controls two_drivers pasted_elsewhere
unfolding Storage.controls
same_storage = refl

build_body-controls_example :
    build_body port_numbers pasted ≡ build_body port_numbers pasted_elsewhere
build_body-controls_example =
    build_body-controls port_numbers two_drivers pasted pasted_elsewhere pasted_remote pasted_driver
      same_storage

abbrev google_form : AuthForm
google_form = record {
  provider = some google;
  email = "a@b";
  name = "";
  password = "";
  confirm_pw = "";
  client_id = "id";
  client_secret = "secret";
  redirect_uri = "";
  tenant_id = "";
  issuer_url = "";
  sp_entity_id = "";
  idp_sso_url = "";
  idp_cert = "";
}

abbrev retyped_google_form : AuthForm
retyped_google_form = record google_form { password = "hidden"; tenant_id = "other" }

same_auth : Auth.controls google_form ≡ Auth.controls retyped_google_form
unfolding Auth.controls
same_auth = refl

handle_submit-controls_example :
    handle_submit "jwt" google_form ≡ handle_submit "jwt" retyped_google_form
handle_submit-controls_example =
    handle_submit-controls "jwt" google_form retyped_google_form same_auth

abbrev two_providers : ProvidersResponse
two_providers = record { authy_enabled = true; providers = "local" ∷ "google" ∷ [] }

abbrev gate : Gate
gate = record {
  providers = some two_providers;
  email = "a@b";
  password = "secret";
  legacy_token = "";
  error = none;
  busy = false;
  storage = full_storage;
}

abbrev no_field : Json → Result (Option String)
no_field json = ok none

abbrev no_providers : Json → ProvidersResponse
no_providers json = two_providers

abbrev quiet : Session
quiet = record { gate = gate; in_flight = none; authed = false; left = false }

abbrev wrong_password : List SignIn.Event
wrong_password = submitted with_password ∷ answered (response unauthorized) ∷ []

run-IsWaiting_example :
    IsWaiting parse_or_throw no_field no_field no_providers
      (run parse_or_throw no_field no_field no_providers quiet wrong_password)
run-IsWaiting_example =
    run-IsWaiting parse_or_throw no_field no_field no_providers quiet wrong_password
      (inl (refl, refl))

abbrev doubtful : ManualUpstreamResponse
doubtful = record { applied = true; error = none; warning = some "the command exited at once" }

abbrev reopened : Catalog.Page
reopened = record {
  catalog = none;
  error = none;
  query = "";
  category = "";
  selected = none;
  manual = some record {
    instance_ = 1;
    form = stdio_form;
    progress = record { busy = false; error = none; result = none; warning = none };
  };
  manual_toast = none;
  timers = 1;
  opened = 2;
  cancelled = false;
}
