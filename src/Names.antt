-- ===== src/Names.antt =====
-- Lists of names in the order of their code units, as `sort` of an array of strings leaves them.
pub mod Order
pub mod Ranks
use mcpxy.Prelude.{
  ℕ, suc, String, Char, code, Bool, true, false, List, [], ◌∷◌, ◌+◌, ◌-◌, ◌/◌, ◌%◌, ltb,
  if◌then◌else◌,
}
use Prim.Native.String.{[], ◌∷◌}

-- The code units of a string: two for a character above U+FFFF.
unfoldable pub code_units : String → List ℕ
code_units [] = []
code_units (c ∷ s) =
    let rest = code_units s in
    let n = code c in
    if ltb 65535 n
    then (55296 + (n - 65536) / 1024) ∷ (56320 + (n - 65536) % 1024) ∷ rest
    else n ∷ rest

unfoldable pub units_le : List ℕ → List ℕ → Bool
units_le [] vs = true
units_le (u ∷ us) [] = false
units_le (u ∷ us) (v ∷ vs) =
    let rest = units_le us vs in if ltb u v then true else if ltb v u then false else rest

-- `s <= t`
unfoldable pub name_le : String → String → Bool
name_le s t = units_le (code_units s) (code_units t)

unfoldable pub insert_sorted : String → List String → List String
insert_sorted name [] = name ∷ []
insert_sorted name (held ∷ names) =
    let rest = insert_sorted name names in
    if name_le name held then name ∷ held ∷ names else held ∷ rest

-- `names.sort()`. The order is total and equal names are one text, so that the result does not depend
-- on how it sorts.
unfoldable pub sort : List String → List String
sort [] = []
sort (name ∷ names) = insert_sorted name (sort names)
