-- ===== src/Tests/App.antt =====
-- The dashboard's start at concrete inputs.
use mcpxy.Prelude.{none, some, List, [], ◌∷◌, ◌≡◌, ◌≢◌, refl, true, false, ◌⊎◌}
use mcpxy.Api.Client.{get_token, response, truthy_option, auth_headers}
use mcpxy.App.{
  idle, connecting, login, dashboard, view, Event, status_answered, cookie_answered, me_answered,
  logged_in, initial_app, handle, run,
}
use mcpxy.App.Admission.{reached, connecting-awaits, admin_needs_answer}
use mcpxy.App.Probes.{late_cookie_probe}
use mcpxy.Tests.Values.{parse_or_throw, as_viewer, empty_storage, full_storage, unauthorized}
use mcpxy.Api.Types.{OnboardingStatus}

abbrev old_status : OnboardingStatus
old_status = record {
  active = false;
  completed = true;
  expired = false;
  required = false;
  created_at = none;
  admin_token_set_at = some 1;
  first_upstream_at = none;
  completed_at = some 2;
  completed_by = none;
  ttl_s = none;
  expires_at = none;
  database = none;
}

starts_connecting : view (reached parse_or_throw as_viewer full_storage []) ≡ connecting
unfolding view run initial_app
starts_connecting = refl

connecting-awaits_example :
    ((reached parse_or_throw as_viewer full_storage []).resolved ≡ false)
    ⊎ ((reached parse_or_throw as_viewer full_storage []).probe ≢ idle)
connecting-awaits_example =
    connecting-awaits parse_or_throw as_viewer full_storage [] starts_connecting

abbrev refused : List Event
refused = status_answered (some old_status) ∷ me_answered (response unauthorized) ∷ []

admin_needs_answer_example :
    view (reached parse_or_throw as_viewer full_storage refused) ≢ dashboard true
admin_needs_answer_example =
    admin_needs_answer parse_or_throw as_viewer full_storage refused (tt, (refl, tt))

no_token : truthy_option (get_token empty_storage) ≡ false
unfolding get_token
no_token = refl

late_cookie_probe_example :
    let signed_in =
      run parse_or_throw as_viewer
        (initial_app empty_storage)
        (status_answered (some old_status) ∷ logged_in full_storage ∷ []) in
    let later =
      handle parse_or_throw as_viewer signed_in (cookie_answered (response unauthorized)) in
    (view signed_in ≡ dashboard false) × (view later ≡ login) × (auth_headers later.storage ≡ [])
late_cookie_probe_example =
    late_cookie_probe parse_or_throw as_viewer empty_storage full_storage old_status unauthorized
      no_token refl refl refl
