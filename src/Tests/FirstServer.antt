-- ===== src/Tests/FirstServer.antt =====
-- The first server of the wizard at concrete inputs.
use mcpxy.Prelude.{none, List, [], ◌∷◌, ◌≡◌, ◌⊎◌, map, filter, some, true}
use mcpxy.Api.Json.{ok}
use mcpxy.Api.Types.{CatalogVariable, CatalogEntry, CatalogResponse, stdio}
use mcpxy.Browse.{InstallRequest}
use mcpxy.Onboarding.FirstServer.{
  Event, initial_step, curated, curated_ids, catalog_answered, entry_picked, var_typed,
  back_clicked, install_clicked, handle, run,
}
use mcpxy.Onboarding.FirstServer.Curated.{is_offered, curated-ids}
use mcpxy.Onboarding.FirstServer.Variables.{IsFor, requests-IsOwn}

abbrev token : CatalogVariable
token = record { name = "TOKEN"; description = ""; required = true; default = none; secret = true }

abbrev github : CatalogEntry
github = record {
  id = "github";
  name = "GitHub";
  description = "";
  category = "dev";
  homepage = "";
  transport = stdio;
  install_hint = "";
  tags = [];
  variables = token ∷ [];
  command = none;
  args = none;
  url = none;
  env = none;
}

abbrev git : CatalogEntry
git = record github { id = "git"; name = "Git"; variables = [] }

abbrev catalog : CatalogResponse
catalog = record { version = 1; updated_at = ""; categories = []; entries = github ∷ git ∷ [] }

abbrev changed_mind : List Event
changed_mind =
    catalog_answered (ok catalog)
    ∷ entry_picked github
    ∷ var_typed "TOKEN" "x"
    ∷ back_clicked
    ∷ entry_picked git
    ∷ []

requests-IsOwn_example :
    let s = run initial_step changed_mind in
    ((handle s install_clicked).sent ≡ s.sent)
    ⊎ ((entry : CatalogEntry) × (request : InstallRequest) × (s.selected ≡ some entry)
        × IsFor entry request
        × ((handle s install_clicked).sent ≡ request ∷ s.sent))
requests-IsOwn_example = requests-IsOwn changed_mind install_clicked

curated-ids_example :
    map (λ (entry : CatalogEntry). entry.id) (curated (some catalog))
    ≡ filter (is_offered catalog.entries) curated_ids
curated-ids_example = curated-ids catalog
