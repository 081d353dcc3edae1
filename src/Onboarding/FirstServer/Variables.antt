-- ===== src/Onboarding/FirstServer/Variables.antt =====
-- Which variables an installation is sent with.
use mcpxy.Prelude.{
  String, true, false, Option, none, some, List, [], ◌∷◌, ◌≡◌, ◌⊎◌, inl, inr, refl, arith, All,
  ◌==◌, Bool-cases, Option-cases, subst,
}
use mcpxy.Record.{insert}
use mcpxy.Api.Json.{ok, err}
use mcpxy.Api.Types.{CatalogEntry}
use mcpxy.Browse.{InstallRequest}
use mcpxy.Onboarding.FirstServer.{
  Step, Event, initial_step, catalog_answered, entry_picked, var_typed, back_clicked, skip_clicked,
  install_clicked, install_answered, has_variable, install, installed, handle, run,
}

-- Each text stands under a variable of the entry.
abbrev pub Belongs : Option CatalogEntry → List (String × String) → Type 0
Belongs selected vars = All (λ (pair : String × String). has_variable pair.0 selected ≡ true) vars

Belongs-insert :
    (selected : Option CatalogEntry) (name value : String) (vars : List (String × String))
    → has_variable name selected ≡ true
    → Belongs selected vars
    → Belongs selected (insert name value vars)
unfolding insert
Belongs-insert selected name value [] h b = (h, tt)
Belongs-insert selected name value ((held, old) ∷ vars) h (b, bs) =
    elim (Bool-cases (held == name)) [
      | inl same ↦ rw same (b, bs)
      | inr other ↦ rw other (b, Belongs-insert selected name value vars h bs)
    ]

-- The request installs one entry under its own name, with texts for its own variables only.
abbrev pub IsFor : CatalogEntry → InstallRequest → Type 0
IsFor entry request =
    (request.id ≡ entry.id) × (request.name ≡ entry.id) × Belongs (some entry) request.variables

-- Texts belong to the selected entry, and there are none while no entry is selected.
record Inv (selected : Option CatalogEntry) (vars : List (String × String)) : Type 0 where
  pub belongs : Belongs selected vars
  pub clean : selected ≡ none → vars ≡ []

abbrev InvOf : Step → Type 0
InvOf s = Inv s.selected s.vars

-- A step that leaves the two alone keeps the invariant.
same-Inv : (s t : Step) → (t.selected ≡ s.selected) × (t.vars ≡ s.vars) → InvOf s → InvOf t
same-Inv s t (selected, vars) v = rw (selected) (rw (vars) v)

no_variable :
    (name : String) (selected : Option CatalogEntry)
    → selected ≡ none
    → has_variable name selected ≡ false
unfolding has_variable
no_variable name selected h = rw h refl

picked_lem :
    (s : Step) (entry : CatalogEntry)
    → s.selected ≡ none
    → handle s (entry_picked entry) ≡ record s { selected = some entry }
unfolding handle
picked_lem s entry free = ground arith

picked-Inv : (s : Step) (entry : CatalogEntry) → InvOf s → InvOf (handle s (entry_picked entry))
unfolding handle
picked-Inv s entry v = elim (Option-cases s.selected) [
  | inl free ↦
      rw (picked_lem s entry free) record { belongs = rw (v.clean free) tt; clean = λ h. cc }
  | inr (held, h) ↦ same-Inv s (handle s (entry_picked entry)) (ground arith) v
]

installed_lem :
    (s : Step) (entry : CatalogEntry)
    → s.selected ≡ some entry
    → s.busy ≡ false
    → handle s install_clicked ≡ install entry s
unfolding handle
installed_lem s entry h free = ground arith

handle-Inv : (s : Step) (e : Event) → InvOf s → InvOf (handle s e)
unfolding handle
handle-Inv s (catalog_answered (ok catalog)) v = v
handle-Inv s (catalog_answered (err e)) v = v
handle-Inv s (entry_picked entry) v = picked-Inv s entry v
handle-Inv s (var_typed name value) v = elim (Bool-cases (has_variable name s.selected)) [
  | inl held ↦ rw held record {
    belongs = Belongs-insert s.selected name value s.vars held v.belongs;
    clean = λ h.
        (let missing : has_variable name s.selected ≡ false = no_variable name s.selected h in cc);
  }
  | inr unknown ↦ rw unknown v
]
handle-Inv s back_clicked v = record { belongs = tt; clean = λ h. refl }
handle-Inv s skip_clicked v = same-Inv s (handle s skip_clicked) (ground arith) v
handle-Inv s install_clicked v =
    same-Inv s (handle s install_clicked) (unfold install in ground arith) v
handle-Inv s (install_answered (ok body)) v =
    same-Inv s (handle s (install_answered (ok body))) (ground arith) v
handle-Inv s (install_answered (err e)) v =
    same-Inv s (handle s (install_answered (err e))) (ground arith) v

run-Inv : (s : Step) (events : List Event) → InvOf s → InvOf (run s events)
run-Inv s [] v = v
run-Inv s (e ∷ events) v = run-Inv (handle s e) events (handle-Inv s e v)

-- What an event sends.
handle-sent :
    (s : Step) (e : Event)
    → InvOf s
    → ((handle s e).sent ≡ s.sent)
      ⊎ ((entry : CatalogEntry) × (request : InstallRequest) × (s.selected ≡ some entry)
          × IsFor entry request
          × ((handle s e).sent ≡ request ∷ s.sent))
unfolding handle installed
handle-sent s (catalog_answered (ok catalog)) v = inl refl
handle-sent s (catalog_answered (err e)) v = inl refl
handle-sent s (entry_picked entry) v = inl (ground arith)
handle-sent s (var_typed name value) v = inl (ground arith)
handle-sent s back_clicked v = inl refl
handle-sent s skip_clicked v = inl (ground arith)
handle-sent s (install_answered (ok body)) v = inl (ground arith)
handle-sent s (install_answered (err e)) v = inl (ground arith)
handle-sent s install_clicked v = elim (Option-cases s.selected) [
  | inl free ↦ inl (ground arith)
  | inr (entry, h) ↦ elim (Bool-cases s.busy) [
    | inl busy ↦ inl (ground arith)
    | inr idle ↦
        let own = subst (λ (o : Option CatalogEntry). Belongs o s.vars) h v.belongs in
        inr (
          entry,
          record { id = entry.id; name = entry.id; variables = s.vars },
          h,
          (refl, refl, own),
          rw (installed_lem s entry h idle) (unfold install in refl),
        )
  ]
]

-- On any events, the next one sends nothing or one request: it installs the entry that is selected
-- at that moment, under that entry's own name, and each text in it is for a variable of that entry.
pub requests-IsOwn :
    (events : List Event) (e : Event)
    → let s = run initial_step events in
      ((handle s e).sent ≡ s.sent)
      ⊎ ((entry : CatalogEntry) × (request : InstallRequest) × (s.selected ≡ some entry)
          × IsFor entry request
          × ((handle s e).sent ≡ request ∷ s.sent))
requests-IsOwn events e =
    let s = run initial_step events in
    handle-sent s e (run-Inv initial_step events record { belongs = tt; clean = λ h. refl })
