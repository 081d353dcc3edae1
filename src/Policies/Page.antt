-- ===== src/Policies/Page.antt =====
-- `Policies` of Policies.tsx: the page's configuration, and its calls.
use mcpxy.Prelude.{
  String, Bool, true, false, Option, none, some, List, ◌∷◌, foldl, truthy, trim, or_else,
  if◌then◌else◌,
}
use mcpxy.Record.{lookup, assign, remove}
use mcpxy.Api.Json.{Result, ok, err, message_of}
use mcpxy.Numbers.{Numbers}
use mcpxy.Policies.{UpstreamPolicies, no_policies, CardEdit, edit_card}

pub record Applied : Type 0 where
  pub applied : Bool
  pub error : Option String

module _ (numbers : Numbers) where
  pub record PoliciesConfig : Type 0 where
    pub global : Option (UpstreamPolicies numbers)
    pub per_upstream : List (String × UpstreamPolicies numbers)

  pub record Page : Type 0 where
    pub config : PoliciesConfig
    pub busy : Bool
    pub feedback : Option (Bool × String)
    pub new_upstream : String
    -- The bodies that `save` has sent, the latest first.
    pub sent : List PoliciesConfig

  pub data Event : Type 0 where
    loaded : Result PoliciesConfig → Event
    global_edited : CardEdit numbers → Event
    upstream_edited : (name : String) → CardEdit numbers → Event
    upstream_removed : (name : String) → Event
    name_typed : String → Event
    add_clicked save_clicked : Event
    save_answered : Result Applied → Event

  unfoldable pub set_per_upstream :
      String → Option (UpstreamPolicies numbers) → PoliciesConfig → PoliciesConfig
  set_per_upstream name none c = record c { per_upstream = remove name c.per_upstream }
  set_per_upstream name (some p) c = record c { per_upstream = assign name p c.per_upstream }

  -- The card of a name is there only while the configuration has it.
  unfoldable pub edit_upstream : String → CardEdit numbers → PoliciesConfig → PoliciesConfig
  unfolding set_per_upstream
  edit_upstream name e c = elim (lookup name c.per_upstream) [
    | none ↦ c
    | some p ↦ set_per_upstream name (some (edit_card numbers p e)) c
  ]

  unfoldable pub on_loaded : Result PoliciesConfig → Page → Page
  on_loaded (ok c) p = record p { config = c; feedback = none }
  on_loaded (err e) p = record p { feedback = some (false, message_of e) }

  unfoldable pub on_saved : Result Applied → Page → Page
  on_saved (ok out) p = record p {
    busy = false;
    feedback = some (
        if out.applied
        then (true, "Policies applied.")
        else (false, or_else out.error "Apply failed"));
  }
  on_saved (err e) p = record p { busy = false; feedback = some (false, message_of e) }

  unfoldable pub handle : Page → Event → Page
  unfolding on_loaded on_saved set_per_upstream edit_upstream
  handle p (loaded answer) = on_loaded answer p
  handle p (global_edited e) = record p {
    config = record (p.config) {
      global = some (edit_card numbers (or_else p.config.global (no_policies numbers)) e);
    };
  }
  handle p (upstream_edited name e) = record p { config = edit_upstream name e p.config }
  handle p (upstream_removed name) = record p { config = set_per_upstream name none p.config }
  handle p (name_typed s) = record p { new_upstream = s }
  handle p add_clicked =
      if truthy (trim p.new_upstream)
      then record p {
        config = set_per_upstream (trim p.new_upstream) (some (no_policies numbers)) p.config;
        new_upstream = "";
      }
      else p
  handle p save_clicked = if p.busy then p else record p { busy = true; sent = p.config ∷ p.sent }
  handle p (save_answered answer) = if p.busy then on_saved answer p else p

  abbrev pub run : Page → List Event → Page
  run = foldl handle
