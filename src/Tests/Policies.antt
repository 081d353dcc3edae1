-- ===== src/Tests/Policies.antt =====
-- The policies at concrete inputs.
use mcpxy.Prelude.{String, none, List, trim, [], ◌∷◌, ◌≢◌, refl, true, false, arith, foldl, eq_iff}
use mcpxy.Api.Json.{ok}
use mcpxy.Policies.{UpstreamPolicies, no_policies, CardEdit, allow_edited, enter_pressed}
use mcpxy.Policies.Page.{
  Applied, PoliciesConfig, Page, loaded, save_clicked, save_answered, upstream_edited,
  upstream_removed, Event, run,
}
use mcpxy.Record.{lookup}
use mcpxy.Policies.Refine.{Spec, spec_step, ImplementsPage, run-Implements}
use mcpxy.Tests.Values.{port_numbers}

abbrev empty : UpstreamPolicies port_numbers
empty = no_policies port_numbers

abbrev allow_list : CardEdit port_numbers
allow_list = allow_edited (enter_pressed " tools/list ")

abbrev one_upstream : PoliciesConfig port_numbers
one_upstream = record { global = none; per_upstream = ("git", empty) ∷ [] }

git_is_own : ◌≢◌ {A = String} "git" "__proto__"
git_is_own = ground (arith, eq_iff "git" "__proto__")

abbrev page : Page port_numbers
page = record { config = one_upstream; busy = false; feedback = none; new_upstream = ""; sent = [] }

abbrev accepted : Applied
accepted = record { applied = true; error = none }

abbrev no_names : Spec port_numbers
no_names = record { global = none; per = λ n. lookup n ([]); typed = "" }

abbrev empty_page : Page port_numbers
empty_page = record page { config = record { global = none; per_upstream = [] } }

starts_empty : ImplementsPage port_numbers empty_page no_names
unfolding trim
starts_empty = record {
  global_same = refl;
  per_same = λ n. refl;
  typed_same = refl;
  distinct = tt;
  typed_own = λ h. cc h;
}

abbrev git_session : List (Event port_numbers)
git_session =
    loaded (ok one_upstream)
    ∷ upstream_edited "git" allow_list
    ∷ save_clicked
    ∷ upstream_removed "git"
    ∷ save_answered (ok accepted)
    ∷ []

run-Implements_example :
    ImplementsPage port_numbers
      (run port_numbers empty_page git_session)
      (foldl (spec_step port_numbers) no_names git_session)
run-Implements_example =
    run-Implements port_numbers empty_page no_names git_session
      ((tt, tt), (git_is_own, (tt, (git_is_own, (tt, tt))))) starts_empty
