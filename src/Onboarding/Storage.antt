-- ===== src/Onboarding/Storage.antt =====
-- `StorageStep` of Onboarding.tsx: the form, the connection test, and the guard of the save button.
pub mod Tested
pub mod Race
pub mod Controls
use mcpxy.Prelude.{
  ℕ, String, Bool, true, false, not, Option, none, some, List, [], ◌∷◌, ◌&&◌, ◌||◌, ◌==◌, truthy,
  or_null, trim, show, any, is_some, foldl, if◌then◌else◌,
}
use mcpxy.Numbers.{Numbers}
use mcpxy.Api.Json.{Result, ok, err, message_of}
use mcpxy.Api.Types.{
  OnboardingDatabaseInfo, OnboardingTestDatabaseResponse, OnboardingSetDatabaseMode,
  OnboardingSetDatabaseResponse,
}

pub data DialectChoice : Type 0 where
  sqlite postgresql mysql : DialectChoice

unfoldable pub is_sqlite : DialectChoice → Bool
is_sqlite sqlite = true
is_sqlite _ = false

-- The key of a dialect in the objects of the source.
unfoldable pub dialect_key : DialectChoice → String
dialect_key sqlite = "sqlite"
dialect_key postgresql = "postgresql"
dialect_key mysql = "mysql"

-- The entry of DIALECT_DEFAULT_PORTS as a text, which is empty for the entry 0.
unfoldable pub default_port : DialectChoice → String
default_port sqlite = ""
default_port postgresql = "5432"
default_port mysql = "3306"

pub data TestResult : Type 0 where
  passed : (dialect url_masked : Option String) → TestResult
  failed : (message : String) → TestResult

pub record StorageForm : Type 0 where
  pub dialect : DialectChoice
  pub host : String
  pub port : String
  pub database : String
  pub user : String
  pub password : String
  pub sslmode : String
  pub raw_url : String
  pub using_raw : Bool
  pub ack : Bool
  pub test_result : Option TestResult

unfoldable pub initial_form : StorageForm
initial_form = record {
  dialect = sqlite;
  host = "localhost";
  port = "5432";
  database = "mcpxy";
  user = "";
  password = "";
  sslmode = "";
  raw_url = "";
  using_raw = false;
  ack = false;
  test_result = none;
}

-- The inputs of the form, and `pickDialect`.
pub data Edit : Type 0 where
  pick_dialect : DialectChoice → Edit
  set_host set_port set_database set_user set_password set_sslmode set_raw_url : String → Edit
  set_ack : Bool → Edit

unfoldable pub edit : StorageForm → Edit → StorageForm
unfolding default_port
edit f (pick_dialect next) = record f {
  dialect = next;
  test_result = none;
  port = default_port next;
  using_raw = false;
}
edit f (set_host s) = record f { host = s; test_result = none }
edit f (set_port s) = record f { port = s; test_result = none }
edit f (set_database s) = record f { database = s; test_result = none }
edit f (set_user s) = record f { user = s; test_result = none }
edit f (set_password s) = record f { password = s; test_result = none }
edit f (set_sslmode s) = record f { sslmode = s; test_result = none }
edit f (set_raw_url s) = record f { raw_url = s; using_raw = truthy s; test_result = none }
edit f (set_ack b) = record f { ack = b }

unfoldable pub passed_test : Option TestResult → Bool
passed_test none = false
passed_test (some (passed dialect url_masked)) = true
passed_test (some (failed message)) = false

unfoldable pub is_remote : StorageForm → Bool
unfolding is_sqlite
is_remote f = not (is_sqlite f.dialect) || f.using_raw

unfoldable pub save_disabled : Bool → StorageForm → Bool
save_disabled busy f = busy || (is_remote f && (not (passed_test f.test_result) || not f.ack))

-- `info?.available_dialects ?? ["sqlite"]` and `info?.is_default ?? true`
unfoldable pub available : Option OnboardingDatabaseInfo → List String
available none = "sqlite" ∷ []
available (some info) = info.available_dialects

unfoldable pub current_is_default : Option OnboardingDatabaseInfo → Bool
current_is_default none = true
current_is_default (some info) = info.is_default

unfoldable pub driver_missing : Option OnboardingDatabaseInfo → StorageForm → Bool
unfolding available dialect_key is_sqlite
driver_missing info f =
    not (is_sqlite f.dialect) && not (any (λ d. d == dialect_key f.dialect) (available info))

-- Save writes nothing where the form asks for the default that is already in use.
unfoldable pub save_skips : Option OnboardingDatabaseInfo → StorageForm → Bool
unfolding current_is_default is_sqlite
save_skips info f = is_sqlite f.dialect && current_is_default info && not f.using_raw

-- What the answer to `test_database` shows.
unfoldable pub test_result_of : Result OnboardingTestDatabaseResponse → TestResult
test_result_of (ok res) =
    if res.success
    then passed res.dialect res.url_masked
    else failed (elim res.error [
      | none ↦ "connection failed"
      | some e ↦ if truthy e then e else "connection failed"
    ])
test_result_of (err e) = failed (message_of e)

-- What the answer to `set_database` does: hand over to the wizard, or show an error.
pub data Saved : Type 0 where
  swapped : OnboardingSetDatabaseMode → Saved
  save_error : String → Saved

unfoldable pub saved_of : Result OnboardingSetDatabaseResponse → Saved
saved_of (ok res) =
    if res.success then swapped res.mode else save_error "Save failed for unknown reason"
saved_of (err e) = save_error (message_of e)

module _ (numbers : Numbers) where
  open numbers use {Number, finite_number}

  -- The database that a request names, and `OnboardingDatabaseRequest`.
  pub data Target : Type 0 where
    by_url : (url : String) → Target
    by_fields :
        (dialect : DialectChoice) (host : String) (port : Option Number)
        (database user password : String) (sslmode : Option String)
        → Target

  pub record DatabaseRequest : Type 0 where
    pub target : Target
    pub secrets_key_ack : Bool

  unfoldable pub port_number : String → Option Number
  port_number port = if truthy port then finite_number port else none

  unfoldable pub target_of : StorageForm → Target
  unfolding port_number
  target_of f =
      if f.using_raw
      then by_url (trim f.raw_url)
      else by_fields f.dialect f.host (port_number f.port) f.database f.user f.password
          (or_null f.sslmode)

  unfoldable pub build_body : StorageForm → DatabaseRequest
  build_body f = record { target = target_of f; secrets_key_ack = f.ack }

  -- The step while it is shown: its form, the wizard's `busy`, the test that is on its way, and
  -- what the last test that passed has tested. `saveAndContinue` is an event of the wizard.
  pub record Session : Type 0 where
    pub form : StorageForm
    pub busy : Bool
    pub in_flight : Option DatabaseRequest
    pub tested : Option Target

  pub data Event : Type 0 where
    edited : Edit → Event
    test_clicked : Event
    test_answered : Result OnboardingTestDatabaseResponse → Event

  -- The button is there for a remote dialect with its driver, and works while nothing is busy.
  unfoldable pub can_test : Option OnboardingDatabaseInfo → Session → Bool
  can_test info s = not (is_sqlite s.form.dialect) && not (driver_missing info s.form) && not s.busy

  -- `runTest` up to its `await`.
  unfoldable pub start_test : Session → Session
  start_test s = record s {
    form = record (s.form) { test_result = none };
    busy = true;
    in_flight = some (build_body s.form);
  }

  -- `runTest` behind its `await`.
  unfoldable pub finish_test : Result OnboardingTestDatabaseResponse → Session → Session
  finish_test answer s = elim s.in_flight [
    | none ↦ s
    | some request ↦
        let result = test_result_of answer in
        record s {
          form = record (s.form) { test_result = some result };
          busy = false;
          in_flight = none;
          tested = if passed_test (some result) then some request.target else s.tested;
        }
  ]

  unfoldable pub step : Option OnboardingDatabaseInfo → Session → Event → Session
  step info s (edited e) = record s { form = edit s.form e }
  step info s test_clicked = if can_test info s then start_test s else s
  step info s (test_answered answer) = finish_test answer s

  abbrev pub run : Option OnboardingDatabaseInfo → Session → List Event → Session
  run info = foldl (step info)

  unfoldable pub initial_session : Session
  unfolding initial_form
  initial_session = record { form = initial_form; busy = false; in_flight = none; tested = none }
