-- ===== src/App/Navigation.antt =====
-- Sidebar.tsx and the routes of App.tsx: where the links lead. An address is spelled as in the
-- links; that the router also takes other spellings of it plays no part.
use mcpxy.Prelude.{
  String, Bool, true, false, Option, none, some, List, [], ◌∷◌, ◌++◌, ◌==◌, ◌&&◌, ◌||◌, ◌≡◌, ◌≢◌,
  refl, arith, any, ◌∙◌, is_some, if◌then◌else◌,
}

pub data PageName : Type 0 where
  overview routes graph traffic policies connect browse : PageName
  imports logs config tokens users token_mappings : PageName

abbrev pub items : List String
items =
    "/overview" ∷ "/routes" ∷ "/graph" ∷ "/traffic" ∷ "/policies" ∷ "/browse" ∷ "/import"
    ∷ "/connect" ∷ "/logs" ∷ "/config" ∷ "/tokens" ∷ []

abbrev pub admin_items : List String
admin_items = "/users" ∷ "/token-mappings" ∷ []

-- The links of the sidebar.
unfoldable pub links : (is_admin : Bool) → List String
links is_admin = items ++ (if is_admin then admin_items else [])

-- The elements of `<Routes>`, in their order; the other addresses lead to the overview.
unfoldable pub routed : (is_admin : Bool) → String → Option PageName
routed is_admin path =
    if path == "/overview"
    then some overview
    else if path == "/routes"
    then some routes
    else if path == "/graph"
    then some graph
    else if path == "/traffic"
    then some traffic
    else if path == "/policies"
    then some policies
    else if path == "/connect"
    then some connect
    else if path == "/browse"
    then some browse
    else if path == "/import"
    then some imports
    else if path == "/logs"
    then some logs
    else if path == "/config"
    then some config
    else if path == "/tokens"
    then some tokens
    else if is_admin && path == "/users"
    then some users
    else if is_admin && path == "/token-mappings"
    then some token_mappings
    else none

unfoldable pub shown : (is_admin : Bool) → String → PageName
unfolding routed
shown is_admin path = elim (routed is_admin path) [ none ↦ overview | some page ↦ page ]

abbrev pub is_listed : String → List String → Bool
is_listed path = any (λ link. path == link)

-- One test more on both sides.
one_more :
    (page : PageName) (b listed : Bool) (rest : Option PageName)
    → is_some rest ≡ listed
    → is_some (if b then some page else rest) ≡ (b || listed)
one_more page true listed rest h = refl
one_more page false listed rest h = h

swapped : (c b i rest : Bool) → (c || (b || (i || rest))) ≡ (b || (i || (c || rest)))
swapped true true i rest = refl
swapped true false true rest = refl
swapped true false false rest = refl
swapped false b i rest = refl

-- The addresses that have a page of their own are exactly the links of the sidebar, for an
-- administrator and for anyone else.
pub routed-links :
    (is_admin : Bool) (path : String)
    → is_some (routed is_admin path) ≡ is_listed path (links is_admin)
unfolding routed links
routed-links true path = one_more overview (path == "/overview") _ _ (
    one_more routes (path == "/routes") _ _ (
      one_more graph (path == "/graph") _ _ (
        one_more traffic (path == "/traffic") _ _ (
          one_more policies (path == "/policies") _ _ (
            (one_more connect (path == "/connect") _ _ (
              one_more browse (path == "/browse") _ _ (
                one_more imports (path == "/import") _ _ (
                  one_more logs (path == "/logs") _ _ (
                    one_more config (path == "/config") _ _ (
                      one_more tokens (path == "/tokens") _ _ (
                        one_more users (path == "/users") _ _
                          (one_more token_mappings (path == "/token-mappings") _ _ refl))))))))
            ∙ swapped (path == "/connect") (path == "/browse") (path == "/import") _)))))
routed-links false path = one_more overview (path == "/overview") _ _ (
    one_more routes (path == "/routes") _ _ (
      one_more graph (path == "/graph") _ _ (
        one_more traffic (path == "/traffic") _ _ (
          one_more policies (path == "/policies") _ _ (
            (one_more connect (path == "/connect") _ _ (
              one_more browse (path == "/browse") _ _ (
                one_more imports (path == "/import") _ _ (
                  one_more logs (path == "/logs") _ _ (
                    one_more config (path == "/config") _ _
                      (one_more tokens (path == "/tokens") _ _ (refl)))))))
            ∙ swapped (path == "/connect") (path == "/browse") (path == "/import") _)))))

-- The pages of the administrator are shown to nobody else, whatever the address.
pub admin_pages : (path : String) → (shown false path ≢ users) × (shown false path ≢ token_mappings)
unfolding shown
admin_pages path = (λ h. ground arith, λ h. ground arith)
