-- ===== src/Policies/Refine.antt =====
-- The page implements a map from names to policies.
use mcpxy.Prelude.{
  String, Option, none, some, List, [], ◌∷◌, ◌≡◌, ◌≢◌, refl, sym, ap, ◌∙◌, ◌==◌, eq_iff, All, foldl,
  truthy, trim, or_else, Bool-cases, Option-cases, inl, inr, if◌then◌else◌,
}
use mcpxy.Numbers.{Numbers}
use mcpxy.Record.{lookup, HasDistinctKeys}
use mcpxy.Api.Json.{ok, err}
use mcpxy.Policies.{UpstreamPolicies, no_policies, CardEdit, edit_card}
use mcpxy.Policies.Page.{
  PoliciesConfig, Page, Event, loaded, global_edited, upstream_edited, upstream_removed, name_typed,
  add_clicked, save_clicked, save_answered, set_per_upstream, edit_upstream, on_loaded, on_saved,
  handle, run,
}
use mcpxy.Policies.Cards.{lookup-set_per_upstream}

module _ (numbers : Numbers) where
  abbrev Policies : Type 0
  Policies = UpstreamPolicies numbers

  -- The policies of every name at once, and the name that is typed.
  pub record Spec : Type 0 where
    pub global : Option Policies
    pub per : String → Option Policies
    pub typed : String

  abbrev pub map_policies : (Policies → Policies) → Option Policies → Option Policies
  map_policies f none = none
  map_policies f (some p) = some (f p)

  abbrev pub put : String → Option Policies → (String → Option Policies) → String → Option Policies
  put name p per other = if name == other then p else per other

  -- What an event does to the map: saving does nothing, and editing a card changes its policies.
  unfoldable pub spec_step : Spec → Event numbers → Spec
  spec_step a (loaded (ok c)) = record a { global = c.global; per = λ n. lookup n c.per_upstream }
  spec_step a (loaded (err e)) = a
  spec_step a (global_edited e) = record a {
    global = some (edit_card numbers (or_else a.global (no_policies numbers)) e);
  }
  spec_step a (upstream_edited name e) = record a {
    per = put name (map_policies (λ p. edit_card numbers p e) (a.per name)) a.per;
  }
  spec_step a (upstream_removed name) = record a { per = put name none a.per }
  spec_step a (name_typed s) = record a { typed = s }
  spec_step a add_clicked =
      if truthy (trim a.typed)
      then record a { per = put (trim a.typed) (some (no_policies numbers)) a.per; typed = "" }
      else a
  spec_step a save_clicked = a
  spec_step a (save_answered answer) = a

  -- The configuration and the text of the page hold the map and the name.
  pub record Implements (c : PoliciesConfig numbers) (typed : String) (a : Spec) : Type 0 where
    pub global_same : c.global ≡ a.global
    pub per_same : (n : String) → lookup n c.per_upstream ≡ a.per n
    pub typed_same : typed ≡ a.typed
    pub distinct : HasDistinctKeys c.per_upstream
    pub typed_own : trim typed ≢ "__proto__"

  abbrev pub ImplementsPage : Page numbers → Spec → Type 0
  ImplementsPage p a = Implements p.config p.new_upstream a

  -- No name is `__proto__`, and an answer names each upstream once.
  abbrev pub IsOwn : Event numbers → Type 0
  IsOwn (loaded (ok c)) = HasDistinctKeys c.per_upstream
  IsOwn (upstream_edited name e) = name ≢ "__proto__"
  IsOwn (upstream_removed name) = name ≢ "__proto__"
  IsOwn (name_typed s) = trim s ≢ "__proto__"
  IsOwn _ = Unit

  set_per_upstream-global :
      (name : String) (q : Option Policies) (c : PoliciesConfig numbers)
      → (set_per_upstream numbers name q c).global ≡ c.global
  unfolding set_per_upstream
  set_per_upstream-global name none c = refl
  set_per_upstream-global name (some q) c = refl

  -- Storing the policies of one name in both.
  put-Implements :
      (c : PoliciesConfig numbers) (a : Spec) (name typed next held : String) (q : Option Policies)
      → name ≢ "__proto__"
      → trim typed ≢ "__proto__"
      → typed ≡ next
      → Implements c held a
      → Implements
          (set_per_upstream numbers name q c)
          typed
          (record a { per = put name q a.per; typed = next })
  put-Implements c a name typed next held q own own_typed same v = record {
    global_same = set_per_upstream-global name q c ∙ v.global_same;
    per_same = λ n.
        (lookup-set_per_upstream numbers name n q c v.distinct own).0
        ∙ ap (λ (o : Option Policies). if name == n then q else o) (v.per_same n);
    typed_same = same;
    distinct = (lookup-set_per_upstream numbers name name q c v.distinct own).1;
    typed_own = own_typed;
  }

  edit_upstream-held :
      (c : PoliciesConfig numbers) (name : String) (e : CardEdit numbers) {q : Policies}
      → lookup name c.per_upstream ≡ some q
      → edit_upstream numbers name e c
        ≡ set_per_upstream numbers name (some (edit_card numbers q e)) c
  unfolding edit_upstream
  edit_upstream-held c name e held = rw (held, edit_upstream) refl

  edit_upstream-missing :
      (c : PoliciesConfig numbers) (name : String) (e : CardEdit numbers)
      → lookup name c.per_upstream ≡ none
      → edit_upstream numbers name e c ≡ c
  unfolding edit_upstream
  edit_upstream-missing c name e missing = rw (missing, edit_upstream) refl

  -- Nothing is put under a name that has nothing.
  put-none-Implements :
      (c : PoliciesConfig numbers) (a : Spec) (name typed : String)
      → a.per name ≡ none
      → Implements c typed a
      → Implements c typed (record a { per = put name none a.per })
  put-none-Implements c a name typed absent v = record {
    global_same = v.global_same;
    per_same = λ n. v.per_same n ∙ unchanged n;
    typed_same = v.typed_same;
    distinct = v.distinct;
    typed_own = v.typed_own;
  }
    where
      unchanged : (n : String) → a.per n ≡ put name none a.per n
      unchanged n = elim (Bool-cases (name == n)) [
        | inl e ↦ rw e (ap a.per (sym ((eq_iff name n).0 e)) ∙ absent)
        | inr e ↦ rw e refl
      ]

  edited-Implements :
      (c : PoliciesConfig numbers) (a : Spec) (name typed : String) (e : CardEdit numbers)
      → name ≢ "__proto__"
      → Implements c typed a
      → Implements (edit_upstream numbers name e c) typed (record a {
        per = put name (map_policies (λ q. edit_card numbers q e) (a.per name)) a.per;
      })
  edited-Implements c a name typed e own v = elim (Option-cases (lookup name c.per_upstream)) [
    | inl missing ↦
        let absent : a.per name ≡ none = sym (v.per_same name) ∙ missing in
        rw (edit_upstream-missing c name e missing)
          (rw absent (put-none-Implements c a name typed absent v))
    | inr (q, held) ↦
        let present : a.per name ≡ some q = sym (v.per_same name) ∙ held in
        rw (edit_upstream-held c name e held) (
          rw present (
            put-Implements c a name typed a.typed typed (some (edit_card numbers q e)) own
              v.typed_own v.typed_same v))
  ]

  added-Implements :
      (p : Page numbers) (a : Spec)
      → ImplementsPage p a
      → ImplementsPage (handle numbers p add_clicked) (spec_step a add_clicked)
  unfolding handle spec_step trim
  added-Implements p a v = elim (Bool-cases (truthy (trim p.new_upstream))) [
    | inl e ↦ rw (sym v.typed_same) (
        rw e (
          put-Implements p.config a (trim p.new_upstream) "" "" p.new_upstream
            (some (no_policies numbers)) v.typed_own (λ h. cc h) refl v))
    | inr e ↦ rw (sym v.typed_same) (
        rw e record {
          global_same = v.global_same;
          per_same = v.per_same;
          typed_same = refl;
          distinct = v.distinct;
          typed_own = v.typed_own;
        })
  ]

  handle-Implements :
      (p : Page numbers) (a : Spec) (e : Event numbers)
      → IsOwn e
      → ImplementsPage p a
      → ImplementsPage (handle numbers p e) (spec_step a e)
  unfolding handle spec_step on_loaded on_saved
  handle-Implements p a (loaded (ok c)) own v = record {
    global_same = refl;
    per_same = λ n. refl;
    typed_same = v.typed_same;
    distinct = own;
    typed_own = v.typed_own;
  }
  handle-Implements p a (loaded (err e)) own v = v
  handle-Implements p a (global_edited e) own v = record {
    global_same =
        ap (λ (g : Option Policies). some (edit_card numbers (or_else g (no_policies numbers)) e))
          v.global_same;
    per_same = v.per_same;
    typed_same = v.typed_same;
    distinct = v.distinct;
    typed_own = v.typed_own;
  }
  handle-Implements p a (upstream_edited name e) own v =
      edited-Implements p.config a name p.new_upstream e own v
  handle-Implements p a (upstream_removed name) own v =
      put-Implements p.config a name p.new_upstream a.typed p.new_upstream none own v.typed_own
        v.typed_same v
  handle-Implements p a (name_typed s) own v = record {
    global_same = v.global_same;
    per_same = v.per_same;
    typed_same = refl;
    distinct = v.distinct;
    typed_own = own;
  }
  handle-Implements p a add_clicked own v = added-Implements p a v
  handle-Implements p a save_clicked own v = elim (Bool-cases p.busy) [
    | inl e ↦ rw e v
    | inr e ↦ rw e v
  ]
  handle-Implements p a (save_answered (ok out)) own v = elim (Bool-cases p.busy) [
    | inl e ↦ rw e v
    | inr e ↦ rw e v
  ]
  handle-Implements p a (save_answered (err f)) own v = elim (Bool-cases p.busy) [
    | inl e ↦ rw e v
    | inr e ↦ rw e v
  ]

  -- On any events, in any order, the page does to its configuration and to the typed name what
  -- the map of names does, and no name comes to stand in it twice; saving, its answers and failed
  -- loads change nothing. The page starts as an implementation of the map, no name is
  -- `__proto__`, and no loaded configuration has a name twice.
  pub run-Implements :
      (p : Page numbers) (a : Spec) (events : List (Event numbers))
      → All IsOwn events
      → ImplementsPage p a
      → ImplementsPage (run numbers p events) (foldl spec_step a events)
  run-Implements p a [] own v = v
  run-Implements p a (e ∷ events) (o, own) v =
      run-Implements (handle numbers p e) (spec_step a e) events own (handle-Implements p a e o v)
