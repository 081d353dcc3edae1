-- ===== src/Browse/Install.antt =====
-- What the dialog sends.
use mcpxy.Prelude.{String, none, List, [], ◌∷◌, ◌≢◌, arith, All, or_else, eq_iff}
use mcpxy.Record.{lookup, insert, lookup-insert, HasDistinctKeys, HasDistinctKeys-insert}
use mcpxy.Api.Types.{CatalogVariable, CatalogEntry}
use mcpxy.Browse.{Dialog, default_vars_from, open_dialog, set_var, install_start}

abbrev pub HasValue : List (String × String) → CatalogVariable → Type 0
HasValue vars v = lookup v.name vars ≢ none

HasValue-insert :
    (k value : String) (vars : List (String × String)) (v : CatalogVariable)
    → HasValue vars v
    → HasValue (insert k value vars) v
HasValue-insert k value vars v h = ground (arith, lookup-insert k v.name value vars)

HasValue-insert_self :
    (value : String) (vars : List (String × String)) (v : CatalogVariable)
    → HasValue (insert v.name value vars) v
HasValue-insert_self value vars v =
    ground (arith, lookup-insert v.name v.name value vars, eq_iff v.name v.name)

HasValue-default :
    (vars : List (String × String)) (vs : List CatalogVariable) (v : CatalogVariable)
    → HasValue vars v
    → HasValue (default_vars_from vars vs) v
unfolding default_vars_from
HasValue-default vars [] v h = h
HasValue-default vars (w ∷ vs) v h =
    HasValue-default (insert w.name (or_else w.default "") vars) vs v
      (HasValue-insert w.name (or_else w.default "") vars v h)

default-All :
    (vars : List (String × String)) (vs : List CatalogVariable)
    → All (HasValue (default_vars_from vars vs)) vs
unfolding default_vars_from
default-All vars [] = tt
default-All vars (v ∷ vs) =
    let next = insert v.name (or_else v.default "") vars in
    (
      HasValue-default next vs v (HasValue-insert_self (or_else v.default "") vars v),
      default-All next vs,
    )

default-HasDistinctKeys :
    (vars : List (String × String)) (vs : List CatalogVariable)
    → HasDistinctKeys vars
    → HasDistinctKeys (default_vars_from vars vs)
unfolding default_vars_from
default-HasDistinctKeys vars [] h = h
default-HasDistinctKeys vars (v ∷ vs) h =
    default-HasDistinctKeys (insert v.name (or_else v.default "") vars) vs
      (HasDistinctKeys-insert v.name (or_else v.default "") vars h)

abbrev pub typed : Dialog → List (String × String) → Dialog
typed d [] = d
typed d ((name, value) ∷ inputs) = typed (set_var name value d) inputs

All-insert :
    (k value : String) (vars : List (String × String)) (vs : List CatalogVariable)
    → All (HasValue vars) vs
    → All (HasValue (insert k value vars)) vs
All-insert k value vars [] h = tt
All-insert k value vars (v ∷ vs) (h, hs) =
    (HasValue-insert k value vars v h, All-insert k value vars vs hs)

typed-All :
    (d : Dialog) (inputs : List (String × String)) (vs : List CatalogVariable)
    → All (HasValue d.vars) vs
    → HasDistinctKeys d.vars
    → All (HasValue (typed d inputs).vars) vs × HasDistinctKeys (typed d inputs).vars
unfolding set_var
typed-All d [] vs h k = (h, k)
typed-All d ((name, value) ∷ inputs) vs h k =
    typed-All (set_var name value d) inputs vs (All-insert name value d.vars vs h)
      (HasDistinctKeys-insert name value d.vars k)

-- Whatever is typed into the dialog, the request has a value for every variable of the entry, and
-- names no variable twice.
pub install-variables :
    (entry : CatalogEntry) (inputs : List (String × String))
    → let request = (install_start entry (typed (open_dialog entry) inputs)).1 in
      All (HasValue request.variables) entry.variables × HasDistinctKeys request.variables
unfolding install_start open_dialog
install-variables entry inputs =
    typed-All (open_dialog entry) inputs entry.variables (default-All [] entry.variables)
      (default-HasDistinctKeys [] entry.variables tt)
