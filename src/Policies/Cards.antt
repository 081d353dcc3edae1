-- ===== src/Policies/Cards.antt =====
-- The cards of the upstreams, and the sections of a card.
use mcpxy.Prelude.{
  String, Option, none, some, ◌≡◌, ◌≢◌, ◌⊎◌, inl, inr, refl, arith, eq_iff, ◌==◌, is_some,
  if◌then◌else◌, Bool-cases,
}
use mcpxy.Numbers.{Numbers}
use mcpxy.Record.{
  lookup, assign, HasDistinctKeys, lookup-insert, lookup-remove, HasDistinctKeys-insert,
  HasDistinctKeys-remove,
}
use mcpxy.Policies.{
  UpstreamPolicies, CardEdit, allow_edited, deny_edited, rate_typed, burst_typed, size_typed,
  scope_picked, redaction_checked, pii_checked, pci_checked, requests_checked, responses_checked,
  edit_card,
}
use mcpxy.Policies.Page.{PoliciesConfig, set_per_upstream}

-- The four sections of a card.
pub data Section : Type 0 where
  method_section rate_section size_section redaction_section : Section

module _ (numbers : Numbers) where
  abbrev pub section_of_edit : CardEdit numbers → Section
  section_of_edit (allow_edited e) = method_section
  section_of_edit (deny_edited e) = method_section
  section_of_edit (rate_typed s) = rate_section
  section_of_edit (burst_typed s) = rate_section
  section_of_edit (scope_picked s) = rate_section
  section_of_edit (size_typed s) = size_section
  section_of_edit (redaction_checked b) = redaction_section
  section_of_edit (pii_checked b) = redaction_section
  section_of_edit (pci_checked b) = redaction_section
  section_of_edit (requests_checked b) = redaction_section
  section_of_edit (responses_checked b) = redaction_section

  -- An input of one section of a card changes no other section, and only the rate itself, and
  -- never burst or scope, makes or removes a rate limit.
  pub edit_card-frame :
      (p : UpstreamPolicies numbers) (e : CardEdit numbers)
      → ((section_of_edit e ≡ method_section) ⊎ ((edit_card numbers p e).methods ≡ p.methods))
        × ((section_of_edit e ≡ rate_section) ⊎ ((edit_card numbers p e).rate_limit ≡ p.rate_limit))
        × ((section_of_edit e ≡ size_section) ⊎ ((edit_card numbers p e).size ≡ p.size))
        × ((section_of_edit e ≡ redaction_section)
            ⊎ ((edit_card numbers p e).redaction ≡ p.redaction))
        × (((typed : String) × (e ≡ rate_typed typed))
            ⊎ (is_some (edit_card numbers p e).rate_limit ≡ is_some p.rate_limit))
  unfolding edit_card
  edit_card-frame p (allow_edited e) =
      (inl refl, ground arith, ground arith, ground arith, inr (ground arith))
  edit_card-frame p (deny_edited e) =
      (inl refl, ground arith, ground arith, ground arith, inr (ground arith))
  edit_card-frame p (rate_typed s) = (inr refl, inl refl, inr refl, inr refl, inl (s, refl))
  edit_card-frame p (burst_typed s) =
      (ground arith, inl refl, ground arith, ground arith, inr (ground arith))
  edit_card-frame p (scope_picked s) =
      (ground arith, inl refl, ground arith, ground arith, inr (ground arith))
  edit_card-frame p (size_typed s) = (inr refl, inr refl, inl refl, inr refl, inr refl)
  edit_card-frame p (redaction_checked b) = (inr refl, inr refl, inr refl, inl refl, inr refl)
  edit_card-frame p (pii_checked b) =
      (ground arith, ground arith, ground arith, inl refl, inr (ground arith))
  edit_card-frame p (pci_checked b) =
      (ground arith, ground arith, ground arith, inl refl, inr (ground arith))
  edit_card-frame p (requests_checked b) =
      (ground arith, ground arith, ground arith, inl refl, inr (ground arith))
  edit_card-frame p (responses_checked b) =
      (ground arith, ground arith, ground arith, inl refl, inr (ground arith))

  -- Storing or removing the policies of an upstream decides them and those of no other one, and
  -- no name comes to stand in the configuration twice if none did before; the name `__proto__` is
  -- excluded.
  pub lookup-set_per_upstream :
      (name other : String) (p : Option (UpstreamPolicies numbers)) (c : PoliciesConfig numbers)
      → HasDistinctKeys c.per_upstream
      → name ≢ "__proto__"
      → (lookup other (set_per_upstream numbers name p c).per_upstream
          ≡ (if name == other then p else lookup other c.per_upstream))
        × HasDistinctKeys (set_per_upstream numbers name p c).per_upstream
  unfolding set_per_upstream assign
  lookup-set_per_upstream name other none c h n =
      (lookup-remove name other c.per_upstream h, HasDistinctKeys-remove name c.per_upstream h)
  lookup-set_per_upstream name other (some p) c h n = elim (Bool-cases (name == "__proto__")) [
    | inl proto ↦ absurd (n ((eq_iff name "__proto__").0 proto))
    | inr own ↦
        rw own (
          lookup-insert name other p c.per_upstream,
          HasDistinctKeys-insert name p c.per_upstream h,
        )
  ]
