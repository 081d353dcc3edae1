-- ===== src/Import.antt =====
-- frontend/src/pages/Import.tsx: the selection of upstreams of each client, and their import.
pub mod Selection
pub mod Session
pub mod Spec
pub mod Refine
use mcpxy.Prelude.{
  ℕ, String, Bool, true, false, not, Option, none, some, List, [], ◌∷◌, ◌++◌, ◌||◌, ◌==◌, ◌<>◌, any,
  filter, length, show, or_else, if◌then◌else◌,
}
use mcpxy.Record.{lookup, assign}
use mcpxy.Api.Json.{Result, ok, err, message_of}
use mcpxy.Api.Types.{DiscoveryClient, DiscoveryResponse}

-- The body of the POST to `/admin/api/discovery/import`.
pub record ImportRequest : Type 0 where
  pub client : String
  pub upstreams : List String
  pub replace : Bool

pub record ImportResponse : Type 0 where
  pub applied : Bool
  pub imported : Option (List String)

-- A `Set` is the list of its elements, in the order in which they were added.
pub record Page : Type 0 where
  pub data_ : Option DiscoveryResponse
  pub error : Option String
  pub selected : List (String × List String)
  pub busy : Bool
  pub result : Option String

unfoldable pub initial_page : Page
initial_page = record { data_ = none; error = none; selected = []; busy = false; result = none }

unfoldable pub has : String → List String → Bool
has name set = any (λ s. s == name) set

-- `set.delete(name)` or `set.add(name)`
unfoldable pub flip : String → List String → List String
unfolding has
flip name set = if has name set then filter (λ s. not (s == name)) set else set ++ name ∷ []

-- `selected[client_id] ?? []`
unfoldable pub chosen_of : String → Page → List String
chosen_of client_id p = or_else (lookup client_id p.selected) []

unfoldable pub toggle : String → String → Page → Page
unfolding flip chosen_of
toggle client_id name p = record p {
  selected = assign client_id (flip name (chosen_of client_id p)) p.selected;
}

-- `selected[client_id]?.has(name) ?? false`
unfoldable pub is_selected : String → String → Page → Bool
unfolding chosen_of
is_selected client_id name p = has name (chosen_of client_id p)

-- `importClient` up to its `await`: the body that is sent, if one is.
unfoldable pub import_start : DiscoveryClient → Page → Page × Option ImportRequest
unfolding chosen_of
import_start client p = elim (chosen_of client.client_id p) [
  | [] ↦ (
    record p { error = some ("select at least one upstream from " <> client.display_name) },
    none,
  )
  | name ∷ names ↦ (
    record p { busy = true; error = none; result = none },
    some (record { client = client.client_id; upstreams = name ∷ names; replace = true }),
  )
]

-- `importClient` behind its `await`, with the upstreams that were sent.
unfoldable pub import_finish : DiscoveryClient → List String → Result ImportResponse → Page → Page
import_finish client chosen (ok res) p =
    if res.applied
    then record p {
      busy = false;
      result = some (
          "Imported "
          <> show (or_else (imported_count res.imported) (length chosen))
          <> " upstream(s) from "
          <> client.display_name
          <> ".");
      selected = assign client.client_id [] p.selected;
    }
    else record p { busy = false; error = some "import returned applied=false" }
  where
    imported_count : Option (List String) → Option ℕ
    imported_count none = none
    imported_count (some names) = some (length names)
import_finish client chosen (err e) p = record p { busy = false; error = some (message_of e) }

-- `disabled` of the button of a client.
unfoldable pub import_disabled : DiscoveryClient → Page → Bool
unfolding chosen_of
import_disabled client p = elim (chosen_of client.client_id p) [ [] ↦ true | name ∷ names ↦ p.busy ]

-- `reload`, and its answer.
unfoldable pub reload_start : Page → Page
reload_start p = record p { error = none }

unfoldable pub reload_finish : Result DiscoveryResponse → Page → Page
reload_finish (ok response) p = record p { data_ = some response }
reload_finish (err e) p = record p { error = some (message_of e) }
