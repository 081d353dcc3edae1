-- ===== src/Policies.antt =====
-- frontend/src/pages/Policies.tsx: the policies and the card that edits those of one upstream. A
-- field that is missing or null is `none`.
pub mod Page
pub mod Tags
pub mod Cards
pub mod Saving
pub mod Refine
use mcpxy.Prelude.{
  ℕ, zero, suc, String, Bool, true, false, Option, none, some, List, [], ◌∷◌, ◌++◌, truthy, trim,
  or_else, if◌then◌else◌,
}
use mcpxy.Numbers.{Numbers}

pub record MethodPolicy : Type 0 where
  pub allow : Option (List String)
  pub deny : Option (List String)

pub data Scope : Type 0 where
  upstream client_ip both : Scope

pub record RedactionPolicy : Type 0 where
  pub pii : Option Bool
  pub pci : Option Bool
  pub redact_request : Option Bool
  pub redact_response : Option Bool
  pub replacement : Option String
  pub custom_patterns : Option (List (String × String))

-- What `tagListEditor` does with the tags that it shows: the × of a tag, and the Enter key.
pub data TagEdit : Type 0 where
  tag_removed : ℕ → TagEdit
  enter_pressed : (draft : String) → TagEdit

-- `filter((_, idx) => idx !== i)`
unfoldable pub without_tag : ℕ → List String → List String
without_tag i [] = []
without_tag zero (tag ∷ tags) = tags
without_tag (suc i) (tag ∷ tags) = tag ∷ without_tag i tags

-- The argument of `onChange`; `none` where it is not called.
unfoldable pub edit_tags : List String → TagEdit → Option (List String)
unfolding without_tag
edit_tags tags (tag_removed i) = some (without_tag i tags)
edit_tags tags (enter_pressed draft) =
    if truthy (trim draft) then some (tags ++ trim draft ∷ []) else none

-- `next.length ? next : null`
unfoldable pub tags_or_null : List String → Option (List String)
tags_or_null [] = none
tags_or_null (tag ∷ tags) = some (tag ∷ tags)

abbrev pub no_methods : MethodPolicy
no_methods = record { allow = none; deny = none }

abbrev full_redaction : RedactionPolicy
full_redaction = record {
  pii = some true;
  pci = some true;
  redact_request = some true;
  redact_response = some true;
  replacement = none;
  custom_patterns = none;
}

module _ (numbers : Numbers) where
  open numbers use {Number, positive_int, positive_float, int_or_one, ceil}

  pub record RateLimitPolicy : Type 0 where
    pub requests_per_second : Number
    pub burst : Number
    pub scope : Scope

  pub record SizePolicy : Type 0 where
    pub max_request_bytes : Number

  pub record UpstreamPolicies : Type 0 where
    pub methods : Option MethodPolicy
    pub rate_limit : Option RateLimitPolicy
    pub size : Option SizePolicy
    pub redaction : Option RedactionPolicy

  abbrev pub no_policies : UpstreamPolicies
  no_policies = record { methods = none; rate_limit = none; size = none; redaction = none }

  -- The inputs of `PolicyCard`.
  pub data CardEdit : Type 0 where
    allow_edited deny_edited : TagEdit → CardEdit
    rate_typed burst_typed size_typed : String → CardEdit
    scope_picked : Scope → CardEdit
    redaction_checked pii_checked pci_checked requests_checked responses_checked : Bool → CardEdit

  -- `policy.methods?.allow ?? []`
  unfoldable pub allowed_tags : UpstreamPolicies → List String
  allowed_tags p = or_else (or_else p.methods no_methods).allow []

  unfoldable pub denied_tags : UpstreamPolicies → List String
  denied_tags p = or_else (or_else p.methods no_methods).deny []

  set_allow : UpstreamPolicies → List String → UpstreamPolicies
  set_allow p next = record p {
    methods = some (record (or_else p.methods no_methods) { allow = tags_or_null next });
  }

  set_deny : UpstreamPolicies → List String → UpstreamPolicies
  set_deny p next = record p {
    methods = some (record (or_else p.methods no_methods) { deny = tags_or_null next });
  }

  -- The handler of the rate: burst and scope are kept, or get their defaults.
  unfoldable pub rate_of : Option RateLimitPolicy → String → Option RateLimitPolicy
  rate_of old typed = elim (positive_float typed) [
    | none ↦ none
    | some v ↦ elim old [
      | none ↦ some (record { requests_per_second = v; burst = ceil v; scope = upstream })
      | some r ↦ some (record r { requests_per_second = v })
    ]
  ]

  size_of : String → Option SizePolicy
  size_of typed = elim (positive_int typed) [
    | none ↦ none
    | some v ↦ some (record { max_request_bytes = v })
  ]

  -- A checkbox below the redaction is shown only where there is one.
  on_redaction : (RedactionPolicy → RedactionPolicy) → UpstreamPolicies → UpstreamPolicies
  on_redaction change p = elim p.redaction [
    | none ↦ p
    | some r ↦ record p { redaction = some (change r) }
  ]

  on_rate : (RateLimitPolicy → RateLimitPolicy) → UpstreamPolicies → UpstreamPolicies
  on_rate change p = elim p.rate_limit [
    | none ↦ record p { rate_limit = none }
    | some r ↦ record p { rate_limit = some (change r) }
  ]

  -- What the card passes to its `onChange`; the policy itself where it passes nothing.
  unfoldable pub edit_card : UpstreamPolicies → CardEdit → UpstreamPolicies
  unfolding set_allow set_deny size_of on_redaction on_rate allowed_tags denied_tags edit_tags
  edit_card p (allow_edited e) = elim (edit_tags (allowed_tags p) e) [
    | none ↦ p
    | some next ↦ set_allow p next
  ]
  edit_card p (deny_edited e) = elim (edit_tags (denied_tags p) e) [
    | none ↦ p
    | some next ↦ set_deny p next
  ]
  edit_card p (rate_typed typed) = record p { rate_limit = rate_of p.rate_limit typed }
  edit_card p (burst_typed typed) = on_rate (λ r. record r { burst = int_or_one typed }) p
  edit_card p (scope_picked s) = on_rate (λ r. record r { scope = s }) p
  edit_card p (size_typed typed) = record p { size = size_of typed }
  edit_card p (redaction_checked checked) = record p {
    redaction = if checked then some full_redaction else none;
  }
  edit_card p (pii_checked b) = on_redaction (λ r. record r { pii = some b }) p
  edit_card p (pci_checked b) = on_redaction (λ r. record r { pci = some b }) p
  edit_card p (requests_checked b) = on_redaction (λ r. record r { redact_request = some b }) p
  edit_card p (responses_checked b) = on_redaction (λ r. record r { redact_response = some b }) p
