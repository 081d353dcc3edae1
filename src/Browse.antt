-- ===== src/Browse.antt =====
-- frontend/src/pages/Browse.tsx: the search in the catalog, and the dialog that installs an entry.
pub mod Search
pub mod Install
pub mod Page
use mcpxy.Prelude.{
  ℕ, String, Bool, true, false, not, Option, none, some, List, [], ◌∷◌, ◌&&◌, ◌==◌, ◌<>◌, all,
  filter, foldl, truthy, trim, is_space, includes, or_else, is_some, if◌then◌else◌,
}
use mcpxy.Record.{insert}
use mcpxy.Api.Json.{Result, ok, err, message_of}
use mcpxy.Api.Types.{CatalogVariable, CatalogEntry, CatalogResponse}
use mcpxy.Manual.Payload.{split_at}

-- `parts.join(" ")` of a list that is not empty: the first part, then the others.
unfoldable pub join_from : String → List String → String
join_from first [] = first
join_from first (part ∷ parts) = first <> (" " <> join_from part parts)

-- `q.split(/\s+/)`; the empty parts between two separators are found in every text.
unfoldable pub search_parts : String → List String
search_parts q = split_at is_space q

-- `toLowerCase` of the runtime is a parameter.
module _ (to_lower_case : String → String) where
  unfoldable pub hay_of : CatalogEntry → String
  hay_of entry = to_lower_case (join_from entry.id (entry.name ∷ entry.description ∷ entry.tags))

  -- The predicate of `filtered`, for a lowercase query.
  unfoldable pub matches_query : (q category : String) → CatalogEntry → Bool
  unfolding hay_of
  matches_query q category entry =
      if truthy category && not (entry.category == category)
      then false
      else if not (truthy q)
      then true
      else all (λ part. includes (hay_of entry) part) (search_parts q)

  unfoldable pub filtered : Option CatalogResponse → (query category : String) → List CatalogEntry
  unfolding matches_query
  filtered none query category = []
  filtered (some catalog) query category =
      filter (matches_query (to_lower_case (trim query)) category) catalog.entries

-- `InstallDialog`
pub record Dialog : Type 0 where
  pub name : String
  pub vars : List (String × String)
  pub busy : Bool
  pub error : Option String
  pub result : Option String

-- `Object.fromEntries`: a later entry of a name replaces an earlier one.
unfoldable pub default_vars_from :
    List (String × String) → List CatalogVariable → List (String × String)
default_vars_from vars [] = vars
default_vars_from vars (v ∷ vs) = default_vars_from (insert v.name (or_else v.default "") vars) vs

unfoldable pub open_dialog : CatalogEntry → Dialog
unfolding default_vars_from
open_dialog entry = record {
  name = entry.id;
  vars = default_vars_from [] entry.variables;
  busy = false;
  error = none;
  result = none;
}

-- `setVars({ ...vars, [name]: value })`
unfoldable pub set_var : String → String → Dialog → Dialog
set_var name value d = record d { vars = insert name value d.vars }

pub record InstallRequest : Type 0 where
  pub id : String
  pub name : String
  pub variables : List (String × String)

pub record InstallResponse : Type 0 where
  pub applied : Bool
  pub installed : Option String

unfoldable pub install_start : CatalogEntry → Dialog → Dialog × InstallRequest
install_start entry d = (
  record d { busy = true; error = none; result = none },
  record { id = entry.id; name = d.name; variables = d.vars },
)

unfoldable pub install_finish : (name : String) → Result InstallResponse → Dialog → Dialog
install_finish name (ok res) d =
    if res.applied
    then record d {
      busy = false;
      result = some ("Installed as upstream '" <> or_else res.installed name <> "'.");
    }
    else record d { busy = false; error = some "install returned applied=false" }
install_finish name (err e) d = record d { busy = false; error = some (message_of e) }

unfoldable pub install_disabled : Dialog → Bool
install_disabled d = if d.busy then true else is_some d.result
