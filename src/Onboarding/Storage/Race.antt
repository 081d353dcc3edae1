-- ===== src/Onboarding/Storage/Race.antt =====
-- A test that is answered after an edit: the result belongs to fields that are no longer there.
use mcpxy.Prelude.{String, true, false, Option, none, some, List, [], ◌∷◌, ◌≡◌, ◌≢◌, refl, arith}
use mcpxy.Numbers.{Numbers}
use mcpxy.Api.Json.{Result, ok}
use mcpxy.Api.Types.{OnboardingDatabaseInfo, OnboardingTestDatabaseResponse}
use mcpxy.Onboarding.Storage.{
  StorageForm, passed, set_host, edit, passed_test, save_disabled, driver_missing, target_of,
  build_body, Session, Event, edited, test_clicked, test_answered, can_test, start_test,
  finish_test, step, run, test_result_of,
}

module _ (numbers : Numbers) (info : Option OnboardingDatabaseInfo) where
  abbrev pub late_edit : String → Result OnboardingTestDatabaseResponse → List (Event numbers)
  late_edit host answer = test_clicked ∷ edited (set_host host) ∷ test_answered answer ∷ []

  -- The form behind the late edit and the answer.
  abbrev late_form : StorageForm → String → OnboardingTestDatabaseResponse → StorageForm
  late_form f host res = record f {
    host = host;
    test_result = some (passed res.dialect res.url_masked);
  }

  late_form-driver :
      (s : Session numbers) (host : String) (res : OnboardingTestDatabaseResponse)
      → can_test numbers info s ≡ true
      → driver_missing info (late_form s.form host res) ≡ false
  unfolding can_test driver_missing
  late_form-driver s host res c = ground arith

  late_form-target :
      (f : StorageForm) (host : String) (res : OnboardingTestDatabaseResponse)
      → f.using_raw ≡ false
      → target_of numbers (late_form f host res) ≡ target_of numbers f
      → host ≡ f.host
  unfolding target_of
  late_form-target f host res raw e = ground arith

  late_form-enabled :
      (f : StorageForm) (host : String) (res : OnboardingTestDatabaseResponse)
      → f.ack ≡ true
      → save_disabled false (late_form f host res) ≡ false
  unfolding save_disabled passed_test
  late_form-enabled f host res a = ground arith

  late_form-run :
      (s : Session numbers) (host : String) (res : OnboardingTestDatabaseResponse)
      → can_test numbers info s ≡ true
      → res.success ≡ true
      → run numbers info s (late_edit host (ok res)) ≡ record {
        form = late_form s.form host res;
        busy = false;
        in_flight = none;
        tested = some (target_of numbers s.form);
      }
  unfolding step start_test finish_test edit test_result_of passed_test build_body
  late_form-run s host res c good = rw (c, good)

  -- The inputs stay open while a test runs. If a test can be started, the fields are used and the
  -- key is acknowledged, and the user changes the host before the answer comes and the answer is
  -- good, then the save button is enabled, while the database that would be saved is another than
  -- the one that this last test was about.
  pub late_edit-untested :
      (s : Session numbers) (host : String) (res : OnboardingTestDatabaseResponse)
      → can_test numbers info s ≡ true
      → s.form.using_raw ≡ false
      → s.form.ack ≡ true
      → res.success ≡ true
      → host ≢ s.form.host
      → let t = run numbers info s (late_edit host (ok res)) in
        (save_disabled t.busy t.form ≡ false)
        × (driver_missing info t.form ≡ false)
        × (t.tested ≡ some (target_of numbers s.form))
        × (target_of numbers t.form ≢ target_of numbers s.form)
  late_edit-untested s host res c raw a good n = rw (late_form-run s host res c good) (
    late_form-enabled s.form host res a,
    late_form-driver s host res c,
    refl,
    λ e. n (late_form-target s.form host res raw e),
  )
