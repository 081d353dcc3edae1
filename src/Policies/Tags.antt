-- ===== src/Policies/Tags.antt =====
-- What the card keeps true of a policy while it is edited.
use mcpxy.Prelude.{
  ℕ, zero, suc, String, true, Option, none, some, List, [], ◌∷◌, ◌++◌, ◌≡◌, ◌≢◌, ◌⊎◌, inl, inr,
  refl, arith, All, foldl, truthy, trim, or_else, Bool-cases,
}
use mcpxy.Numbers.{Numbers}
use mcpxy.Policies.{
  MethodPolicy, RateLimitPolicy, RedactionPolicy, no_methods, TagEdit, tag_removed, enter_pressed,
  without_tag, edit_tags, tags_or_null, UpstreamPolicies, CardEdit, allow_edited, deny_edited,
  rate_typed, burst_typed, size_typed, scope_picked, redaction_checked, pii_checked, pci_checked,
  requests_checked, responses_checked, allowed_tags, denied_tags, on_rate, on_redaction, edit_card,
}

abbrev pub IsTag : String → Type 0
IsTag tag = truthy tag ≡ true

-- A list of tags that is there has a tag, and no tag is empty.
abbrev pub IsTagList : Option (List String) → Type 0
IsTagList none = Unit
IsTagList (some tags) = (tags ≢ []) × All IsTag tags

abbrev pub IsTidyMethods : MethodPolicy → Type 0
IsTidyMethods m = IsTagList m.allow × IsTagList m.deny

without_tag-IsTag : (i : ℕ) (tags : List String) → All IsTag tags → All IsTag (without_tag i tags)
unfolding without_tag
without_tag-IsTag i [] h = tt
without_tag-IsTag zero (tag ∷ tags) (h, hs) = hs
without_tag-IsTag (suc i) (tag ∷ tags) (h, hs) = (h, without_tag-IsTag i tags hs)

snoc-IsTag :
    (tags : List String) (tag : String) → All IsTag tags → IsTag tag → All IsTag (tags ++ tag ∷ [])
snoc-IsTag [] tag h t = (t, tt)
snoc-IsTag (x ∷ tags) tag (h, hs) t = (h, snoc-IsTag tags tag hs t)

edit_tags-IsTag :
    (tags : List String) (e : TagEdit)
    → All IsTag tags
    → (edit_tags tags e ≡ none)
      ⊎ ((next : List String) × (edit_tags tags e ≡ some next) × All IsTag next)
unfolding edit_tags
edit_tags-IsTag tags (tag_removed i) h = inr (without_tag i tags, refl, without_tag-IsTag i tags h)
edit_tags-IsTag tags (enter_pressed draft) h = elim (Bool-cases (truthy (trim draft))) [
  | inl filled ↦ inr (tags ++ trim draft ∷ [], rw filled, snoc-IsTag tags (trim draft) h filled)
  | inr blank ↦ inl (rw blank)
]

tags_or_null-IsTagList : (tags : List String) → All IsTag tags → IsTagList (tags_or_null tags)
unfolding tags_or_null
tags_or_null-IsTagList [] h = tt
tags_or_null-IsTagList (tag ∷ tags) h = (λ e. cc, h)

tags_of-IsTag : (o : Option (List String)) → IsTagList o → All IsTag (or_else o [])
tags_of-IsTag none h = tt
tags_of-IsTag (some tags) (n, h) = h

module _ (numbers : Numbers) where
  unfoldable pub IsTidy : UpstreamPolicies numbers → Type 0
  IsTidy p = IsTidyMethods (or_else p.methods no_methods)

  on_rate-methods :
      (change : RateLimitPolicy numbers → RateLimitPolicy numbers) (p : UpstreamPolicies numbers)
      → (on_rate numbers change p).methods ≡ p.methods
  unfolding on_rate
  on_rate-methods change p = ground arith

  on_redaction-methods :
      (change : RedactionPolicy → RedactionPolicy) (p : UpstreamPolicies numbers)
      → (on_redaction numbers change p).methods ≡ p.methods
  unfolding on_redaction
  on_redaction-methods change p = ground arith

  edit_card-IsTidy :
      (p : UpstreamPolicies numbers) (e : CardEdit numbers)
      → IsTidy p
      → IsTidy (edit_card numbers p e)
  unfolding IsTidy edit_card
  edit_card-IsTidy p (allow_edited e) h =
      elim (edit_tags-IsTag (allowed_tags numbers p) e
        (unfold allowed_tags in tags_of-IsTag _ h.0)) [
          | inl same ↦ rw (same, edit_card) h
          | inr (next, changed, fine) ↦
              rw (changed, edit_card) (tags_or_null-IsTagList next fine, h.1)
        ]
  edit_card-IsTidy p (deny_edited e) h =
      elim (edit_tags-IsTag (denied_tags numbers p) e (unfold denied_tags in tags_of-IsTag _ h.1)) [
        | inl same ↦ rw (same, edit_card) h
        | inr (next, changed, fine) ↦
            rw (changed, edit_card) (h.0, tags_or_null-IsTagList next fine)
      ]
  edit_card-IsTidy p (rate_typed typed) h = h
  edit_card-IsTidy p (burst_typed typed) h = rw (on_rate-methods _ p) h
  edit_card-IsTidy p (size_typed typed) h = h
  edit_card-IsTidy p (scope_picked s) h = rw (on_rate-methods _ p) h
  edit_card-IsTidy p (redaction_checked b) h = h
  edit_card-IsTidy p (pii_checked b) h = rw (on_redaction-methods _ p) h
  edit_card-IsTidy p (pci_checked b) h = rw (on_redaction-methods _ p) h
  edit_card-IsTidy p (requests_checked b) h = rw (on_redaction-methods _ p) h
  edit_card-IsTidy p (responses_checked b) h = rw (on_redaction-methods _ p) h

  -- Whatever is edited in a card, a method list that is present is never empty and holds no empty
  -- tag, if this was so before.
  pub edits-IsTidy :
      (p : UpstreamPolicies numbers) (edits : List (CardEdit numbers))
      → IsTidy p
      → IsTidy (foldl (edit_card numbers) p edits)
  edits-IsTidy p [] h = h
  edits-IsTidy p (e ∷ edits) h = edits-IsTidy (edit_card numbers p e) edits (edit_card-IsTidy p e h)
