-- ===== src/Tests/Onboarding.antt =====
-- The wizard at concrete inputs.
use mcpxy.Prelude.{
  Option, none, some, List, [], ◌∷◌, ◌≡◌, ◌≢◌, ◌≤◌, refl, true, false, arith, ◌⊎◌, inl, inr, eq_iff,
}
use mcpxy.Api.Json.{ok}
use mcpxy.Api.Types.{
  OnboardingStatus, OnboardingDatabaseInfo, OnboardingTestDatabaseResponse, hot_swap,
}
use mcpxy.Onboarding.Wizard.{
  get_started, storage_skipped, save_clicked, save_answered, swap_refreshed, continue_clicked,
  submit_answered, auth_refreshed, server_skipped, initial_wizard, token_set, Event,
}
use mcpxy.Onboarding.Wizard.Progress.{GoesBack, wizard_steps}
use mcpxy.Onboarding.Wizard.Punctual.{IsPunctual, wizard_forward}
use mcpxy.Onboarding.Wizard as Wiz
use mcpxy.Onboarding.Storage.{
  StorageForm, initial_form, postgresql, is_remote, save_disabled, driver_missing, target_of,
  Session, edited, test_clicked, test_answered, pick_dialect, set_host, set_ack, initial_session,
  can_test, step, start_test, finish_test, edit, test_result_of, passed_test, is_sqlite,
  default_port,
}
use mcpxy.Onboarding.Storage as Store
use mcpxy.Onboarding.Storage.Tested.{IsQuiet, session, save_enabled-tested}
use mcpxy.Onboarding.Storage.Race.{late_edit, late_edit-untested}
use mcpxy.Tests.Values.{port_numbers}

abbrev new_status : OnboardingStatus
new_status = record {
  active = true;
  completed = false;
  expired = false;
  required = true;
  created_at = none;
  admin_token_set_at = none;
  first_upstream_at = none;
  completed_at = none;
  completed_by = none;
  ttl_s = none;
  expires_at = none;
  database = none;
}

-- "Continue" is clicked again while the refresh behind the first click is under way.
abbrev two_submissions : List Event
two_submissions =
    get_started
    ∷ storage_skipped
    ∷ continue_clicked none
    ∷ submit_answered none
    ∷ continue_clicked none
    ∷ submit_answered none
    ∷ auth_refreshed none
    ∷ server_skipped
    ∷ []

on_the_last_step : (Wiz.run (initial_wizard (some new_status)) two_submissions).step ≡ 5
unfolding Wiz.run initial_wizard Wiz.handle
on_the_last_step = refl

wizard_steps_example :
    let w = Wiz.run (initial_wizard (some new_status)) two_submissions in
    (1 ≤ w.step)
    × (w.step ≤ 5)
    × ((w.step ≤ (Wiz.handle w (auth_refreshed none)).step)
        ⊎ GoesBack (auth_refreshed none) w (Wiz.handle w (auth_refreshed none)))
wizard_steps_example = wizard_steps (some new_status) two_submissions (auth_refreshed none)

abbrev past : List Event
past = get_started ∷ save_clicked ∷ save_answered (ok (some hot_swap)) ∷ swap_refreshed none ∷ []

past-IsPunctual : IsPunctual (initial_wizard (some new_status)) past
unfolding initial_wizard Wiz.handle
past-IsPunctual = (tt, (tt, (tt, (ground arith, tt))))

wizard_forward_example :
    let w = Wiz.run (initial_wizard (some new_status)) past in
    let later = Wiz.run w (continue_clicked none ∷ []) in
    (w.step ≤ later.step)
    × (later.step ≤ 5)
    × ((token_set w.status ≡ false) ⊎ (4 ≤ later.step))
    × ((later.completed ≡ false) ⊎ (later.step ≡ 5))
wizard_forward_example =
    wizard_forward (some new_status) past (continue_clicked none ∷ []) past-IsPunctual (tt, tt)

abbrev info : Option OnboardingDatabaseInfo
info = some (record {
  current_url_masked = "sqlite://";
  current_dialect = "sqlite";
  is_default = true;
  bootstrap_file_present = false;
  available_dialects = "sqlite" ∷ "postgresql" ∷ [];
})

abbrev good : OnboardingTestDatabaseResponse
good = record { success = true; dialect = none; url_masked = none; error = none }

abbrev test_and_acknowledge : List (Store.Event port_numbers)
test_and_acknowledge =
    edited (pick_dialect postgresql)
    ∷ test_clicked
    ∷ edited (set_ack true)
    ∷ test_answered (ok good)
    ∷ []

quiet : IsQuiet port_numbers info (initial_session port_numbers) test_and_acknowledge
unfolding initial_session
quiet = (inr refl, (inl tt, tt))

remote_form : is_remote (session port_numbers info test_and_acknowledge).form ≡ true
unfolding is_remote initial_session step start_test finish_test edit can_test driver_missing
remote_form = refl

enabled :
    save_disabled
      (session port_numbers info test_and_acknowledge).busy
      (session port_numbers info test_and_acknowledge).form
    ≡ false
unfolding save_disabled is_remote initial_session step start_test finish_test edit can_test
    driver_missing test_result_of passed_test
enabled = refl

save_enabled-tested_example :
    ((session port_numbers info test_and_acknowledge).tested
      ≡ some (target_of port_numbers (session port_numbers info test_and_acknowledge).form))
    × ((session port_numbers info test_and_acknowledge).form.ack ≡ true)
save_enabled-tested_example =
    save_enabled-tested port_numbers info test_and_acknowledge quiet remote_form enabled

abbrev typed : Session port_numbers
typed = record {
  form = record initial_form { dialect = postgresql; ack = true };
  busy = false;
  in_flight = none;
  tested = none;
}

typed-can_test : can_test port_numbers info typed ≡ true
unfolding can_test driver_missing initial_form
typed-can_test = refl

other_host : "other" ≢ typed.form.host
unfolding initial_form
other_host = ground (arith, eq_iff "other" "localhost")

late_edit-untested_example :
    let t = Store.run port_numbers info typed (late_edit port_numbers info "other" (ok good)) in
    (save_disabled t.busy t.form ≡ false)
    × (driver_missing info t.form ≡ false)
    × (t.tested ≡ some (target_of port_numbers typed.form))
    × (target_of port_numbers t.form ≢ target_of port_numbers typed.form)
unfolding initial_form
late_edit-untested_example =
    late_edit-untested port_numbers info typed "other" good typed-can_test refl refl refl other_host
