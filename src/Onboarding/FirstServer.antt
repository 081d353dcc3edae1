-- ===== src/Onboarding/FirstServer.antt =====
-- `FirstServerStep` of Onboarding.tsx: the curated entries of the catalog, and the installation of
-- one of them.
pub mod Curated
pub mod Variables
use mcpxy.Prelude.{
  String, Bool, true, false, not, Option, none, some, List, [], ◌∷◌, ◌==◌, ◌&&◌, ◌<>◌, foldl, any,
  or_else, is_some, if◌then◌else◌,
}
use mcpxy.Record.{insert, lookup}
use mcpxy.Api.Json.{Json, Result, ok, err, message_of}
use mcpxy.Api.Types.{CatalogVariable, CatalogEntry, CatalogResponse}
use mcpxy.Browse.{InstallRequest}

abbrev pub curated_ids : List String
curated_ids = "filesystem" ∷ "git" ∷ "github" ∷ "memory" ∷ "sequential_thinking" ∷ "time" ∷ []

-- `by_id.get(id)`: of the entries with one id the map holds the last.
unfoldable pub by_id : List CatalogEntry → String → Option CatalogEntry
by_id [] id = none
by_id (entry ∷ entries) id = elim (by_id entries id) [
  | some later ↦ some later
  | none ↦ if entry.id == id then some entry else none
]

-- The entries of the ids, in the order of the ids, without those that are not there.
unfoldable pub entries_of : List CatalogEntry → List String → List CatalogEntry
unfolding by_id
entries_of entries [] = []
entries_of entries (id ∷ ids) =
    let rest = entries_of entries ids in
    elim (by_id entries id) [ none ↦ rest | some entry ↦ entry ∷ rest ]

unfoldable pub curated : Option CatalogResponse → List CatalogEntry
unfolding entries_of
curated none = []
curated (some catalog) = entries_of catalog.entries curated_ids

-- The step, with `busy` and `error` of the wizard; `left` once it has called `onSkip` or
-- `onInstalled`.
pub record Step : Type 0 where
  pub catalog : Option CatalogResponse
  pub selected : Option CatalogEntry
  pub vars : List (String × String)
  pub busy : Bool
  pub error : Option String
  pub left : Bool
  pub sent : List InstallRequest

pub data Event : Type 0 where
  catalog_answered : Result CatalogResponse → Event
  entry_picked : CatalogEntry → Event
  var_typed : (name value : String) → Event
  back_clicked skip_clicked install_clicked : Event
  install_answered : Result Json → Event

abbrev pub initial_step : Step
initial_step = record {
  catalog = none;
  selected = none;
  vars = [];
  busy = false;
  error = none;
  left = false;
  sent = [];
}

unfoldable pub has_variable : String → Option CatalogEntry → Bool
has_variable name none = false
has_variable name (some entry) = any (λ (v : CatalogVariable). v.name == name) entry.variables

-- The text of a variable's field.
unfoldable pub shown_value : Step → CatalogVariable → String
shown_value s v = or_else (lookup v.name s.vars) (or_else v.default "")

unfoldable pub install : CatalogEntry → Step → Step
install entry s = record s {
  error = none;
  busy = true;
  sent = record { id = entry.id; name = entry.id; variables = s.vars } ∷ s.sent;
}

-- The answer is not looked into: any success leaves the step.
unfoldable pub installed : Result Json → Step → Step
installed (ok body) s = record s { left = true; busy = false }
installed (err e) s = record s { error = some (message_of e); busy = false }

-- The list is there while no entry is selected, a field for each variable of the selected one.
unfoldable pub handle : Step → Event → Step
unfolding has_variable install installed
handle s (catalog_answered (ok catalog)) = record s { catalog = some catalog }
handle s (catalog_answered (err e)) = record s {
  error = some ("Could not load catalog: " <> message_of e);
}
handle s (entry_picked entry) = if is_some s.selected then s else record s { selected = some entry }
handle s (var_typed name value) =
    if has_variable name s.selected then record s { vars = insert name value s.vars } else s
handle s back_clicked = record s { selected = none; vars = [] }
handle s skip_clicked = if s.busy then s else record s { left = true }
handle s install_clicked = elim s.selected [
  | none ↦ s
  | some entry ↦ if s.busy then s else install entry s
]
handle s (install_answered answer) = if s.busy then installed answer s else s

abbrev pub run : Step → List Event → Step
run = foldl handle
