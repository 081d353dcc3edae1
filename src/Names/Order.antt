-- ===== src/Names/Order.antt =====
-- The order by code units is total, and inserting commutes.
use Prim.Native.Char.{char}
use Prim.Native.String.{[], ◌∷◌}
use text.Mathlib.TextEquality.{Char-path}
use mcpxy.Prelude.{
  ℕ, String, Char, code, true, false, List, [], ◌∷◌, ◌≡◌, ◌<◌, ◌⊎◌, inl, inr, refl, arith,
}
use mcpxy.Names.{code_units, units_le, name_le, insert_sorted}

units_le_total : (us vs : List ℕ) → units_le us vs ≡ false → units_le vs us ≡ true
unfolding units_le
units_le_total [] vs h = cc
units_le_total (u ∷ us) [] h = refl
units_le_total (u ∷ us) (v ∷ vs) h = ground (arith, units_le_total us vs)

units_le_antisymm : (us vs : List ℕ) → units_le us vs ≡ true → units_le vs us ≡ true → us ≡ vs
unfolding units_le
units_le_antisymm [] [] h k = refl
units_le_antisymm [] (v ∷ vs) h k = cc
units_le_antisymm (u ∷ us) [] h k = cc
units_le_antisymm (u ∷ us) (v ∷ vs) h k = ground (arith, units_le_antisymm us vs)

units_le_trans :
    (us vs ws : List ℕ) → units_le us vs ≡ true → units_le vs ws ≡ true → units_le us ws ≡ true
unfolding units_le
units_le_trans [] vs ws h k = refl
units_le_trans (u ∷ us) [] ws h k = cc
units_le_trans (u ∷ us) (v ∷ vs) [] h k = cc
units_le_trans (u ∷ us) (v ∷ vs) (w ∷ ws) h k = ground (arith, units_le_trans us vs ws)

scalar_range : (c : Char) → (code c < 55296) ⊎ ((57343 < code c) × (code c < 1114112))
scalar_range (char n p) = ground arith

pub code_units_inj : (s t : String) → code_units s ≡ code_units t → s ≡ t
unfolding code_units
code_units_inj [] [] h = refl
code_units_inj [] (d ∷ t) h = ground arith
code_units_inj (c ∷ s) [] h = ground arith
code_units_inj (c ∷ s) (d ∷ t) h = elim (scalar_range c) [
  | inl low ↦ elim (scalar_range d) [
    | inl low' ↦ ground (arith, code_units_inj s t, Char-path c d)
    | inr (high', top') ↦ ground (arith, code_units_inj s t, Char-path c d)
  ]
  | inr (high, top) ↦ elim (scalar_range d) [
    | inl low' ↦ ground (arith, code_units_inj s t, Char-path c d)
    | inr (high', top') ↦ ground (arith, code_units_inj s t, Char-path c d)
  ]
]

pub name_le_antisymm : (s t : String) → name_le s t ≡ true → name_le t s ≡ true → s ≡ t
unfolding name_le
name_le_antisymm s t h k = code_units_inj s t (units_le_antisymm (code_units s) (code_units t) h k)

pub name_le_total : (s t : String) → name_le s t ≡ false → name_le t s ≡ true
unfolding name_le
name_le_total s t = units_le_total (code_units s) (code_units t)

pub name_le_trans : (r s t : String) → name_le r s ≡ true → name_le s t ≡ true → name_le r t ≡ true
unfolding name_le
name_le_trans r s t = units_le_trans (code_units r) (code_units s) (code_units t)

pub insert_sorted_comm :
    (s t : String) (names : List String)
    → insert_sorted s (insert_sorted t names) ≡ insert_sorted t (insert_sorted s names)
unfolding insert_sorted
insert_sorted_comm s t [] =
    ground (arith, name_le_antisymm s t, name_le_total s t, name_le_total t s)
insert_sorted_comm s t (r ∷ names) = ground (
  arith,
  insert_sorted_comm s t names,
  name_le_antisymm s t,
  name_le_total s t,
  name_le_total t s,
  name_le_trans s t r,
  name_le_trans t s r,
)
