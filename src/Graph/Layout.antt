-- ===== src/Graph/Layout.antt =====
-- frontend/src/pages/Graph.tsx: `computeLayout`. `routes` is the list of the object's own entries in
-- their order, each key once. A coordinate is a floating point number, which is a parameter.
pub mod Order
pub mod Places
use mcpxy.Prelude.{
  ℕ, suc, String, Char, code, Bool, true, false, List, [], ◌∷◌, ◌+◌, ◌-◌, ◌/◌, ◌%◌, map, ltb,
  length, if◌then◌else◌,
}
use Prim.Native.String.{[], ◌∷◌}
use mcpxy.Api.Json.{Json}
use mcpxy.Record.{insert}
use mcpxy.Names.{sort}

abbrev pub proxy_id : String
proxy_id = "__mcpxy_proxy__"

-- The value of one route; the page reads nothing of `discovery`.
pub record RouteInfo : Type 0 where
  pub health : Json

-- `Object.keys(routes)`
abbrev pub names_of : List (String × RouteInfo) → List String
names_of [] = []
names_of ((name, info) ∷ routes) = name ∷ names_of routes

-- The point (CENTER_X, CENTER_Y), and the point of the ring for an index among a number of names.
module _ {Point : Type 0} (center : Point) (ring : (n index : ℕ) → Point) where
  -- The loop over the names, from an index on.
  unfoldable pub place_all :
      (n index : ℕ) → List String → List (String × Point) → List (String × Point)
  place_all n index [] positions = positions
  place_all n index (name ∷ names) positions =
      place_all n (suc index) names (insert name (ring n index) positions)

  -- A `Map` keeps the place of a key that is set again.
  unfoldable pub compute_layout : List (String × RouteInfo) → List (String × Point)
  unfolding sort place_all
  compute_layout routes =
      let names = sort (names_of routes) in
      place_all (length names) 0 names ((proxy_id, center) ∷ [])
