-- ===== src/Tests/Imports.antt =====
-- The import page as it runs, at concrete inputs.
use mcpxy.Prelude.{String, true, none, List, [], ◌∷◌, ◌≢◌, refl, arith, eq_iff}
use mcpxy.Api.Json.{error, err}
use mcpxy.Api.Types.{DiscoveryClient}
use mcpxy.Import.{initial_page}
use mcpxy.Import.Session.{
  Session, Event, toggled, import_clicked, import_answered, reload_clicked, run,
}
use mcpxy.Import.Spec.{Inv, Steps, abstract_of}
use mcpxy.Import.Refine.{run_refines}

abbrev desktop : DiscoveryClient
desktop = record {
  client_id = "desktop";
  display_name = "Desktop";
  config_path = none;
  detected = true;
  upstreams = [];
}

abbrev idle : Session
idle = record { page = initial_page; in_flight = none }

abbrev failed_import : List Event
failed_import =
    toggled "desktop" "git"
    ∷ import_clicked desktop
    ∷ import_answered (err (error "gone"))
    ∷ reload_clicked
    ∷ []

desktop_is_own : ◌≢◌ {A = String} "desktop" "__proto__"
desktop_is_own = ground (arith, eq_iff "desktop" "__proto__")

idle-Inv : Inv idle
unfolding initial_page
idle-Inv = record { busy = refl; own = λ id h. cc h }

run_refines_example : Steps (abstract_of idle) failed_import (abstract_of (run idle failed_import))
run_refines_example =
    run_refines idle failed_import idle-Inv (desktop_is_own, (desktop_is_own, (tt, (tt, tt))))
