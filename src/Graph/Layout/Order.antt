-- ===== src/Graph/Layout/Order.antt =====
-- A layout does not depend on the order of the routes.
use Prim.Native.String.{[], ◌∷◌}
use mathlib.Core.List.{Permᴰ}
use mathlib.Core.Path.{ap₂}
use mcpxy.Prelude.{ℕ, String, List, [], ◌∷◌, ◌≡◌, refl, ap, ◌∙◌, length}
use mcpxy.Graph.Layout.{RouteInfo, names_of, compute_layout, proxy_id, place_all}
use mcpxy.Names.{sort, insert_sorted}
use mcpxy.Names.Order.{insert_sorted_comm}

pub sort_perm :
    {routes others : List (String × RouteInfo)}
    → Permᴰ routes others
    → sort (names_of routes) ≡ sort (names_of others)
unfolding sort
sort_perm Permᴰ.nil = refl
sort_perm (Permᴰ.cons {a = (s, i)} {b = (t, j)} e p) =
    ap₂ insert_sorted (ap (λ r. r.0) e) (sort_perm p)
sort_perm (Permᴰ.swap {a = (s, i)} {b = (t, j)} {a' = (u, k)} {b' = (v, m)} {l = l} e f) =
    let rest = sort (names_of l) in
    rw (ap (λ (r : String × RouteInfo). r.0) e, ap (λ (r : String × RouteInfo). r.0) f)
      (insert_sorted_comm v u rest)
sort_perm (Permᴰ.trans p q) = sort_perm p ∙ sort_perm q

module _ {Point : Type 0} (center : Point) (ring : (n index : ℕ) → Point) where
  -- The layout is the same for the same routes in any order.
  pub compute_layout_perm :
      {routes others : List (String × RouteInfo)}
      → Permᴰ routes others
      → compute_layout center ring routes ≡ compute_layout center ring others
  unfolding compute_layout
  compute_layout_perm p =
      ap (λ names. place_all center ring (length names) 0 names ((proxy_id, center) ∷ []))
        (sort_perm p)
