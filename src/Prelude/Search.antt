-- ===== src/Prelude/Search.antt =====
-- `s.includes(t)`, and what it means.
use Prim.Native.Char.{Char, code}
use Prim.Native.String.{String, [], ◌∷◌}
use mathlib.Core.Path.{◌≡◌, refl, sym, ap, ◌∙◌}
use mathlib.Core.Logic.{◌↔◌, inl, inr}
use mathlib.Core.Bool.{Bool, true, false, ◌&&◌, ◌||◌}
use native.Mathlib.Omega.{arith}
use text.Mathlib.TextLemmas.{cons-append, nil-append}
use text.Mathlib.TextEquality.{Char-path}
use mcpxy.Prelude.Tests.{nat_eq, Bool-cases}
use mcpxy.Prelude.Texts.{◌<>◌}

unfoldable pub begins : String → String → Bool
begins s [] = true
begins [] (d ∷ t) = false
begins (c ∷ s) (d ∷ t) = nat_eq (code c) (code d) && begins s t

unfoldable pub includes : String → String → Bool
unfolding begins
includes [] t = begins [] t
includes (c ∷ s) t = begins (c ∷ s) t || includes s t

abbrev pub Begins : String → String → Type 0
Begins s t = (after : String) × (s ≡ t <> after)

abbrev pub Contains : String → String → Type 0
Contains s t = (before : String) × (after : String) × (s ≡ before <> (t <> after))

begins_sound : (s t : String) → begins s t ≡ true → Begins s t
unfolding begins
begins_sound s [] h = (s, sym (nil-append s))
begins_sound [] (d ∷ t) h = cc
begins_sound (c ∷ s) (d ∷ t) h =
    let same = Char-path c d (ground arith) in
    let (after, e) = begins_sound s t (ground arith) in
    (after, rw (same, e, cons-append d t after) refl)

begins_complete : (t after : String) → begins (t <> after) t ≡ true
unfolding begins
begins_complete [] after = refl
begins_complete (d ∷ t) after =
    rw (cons-append d t after, begins) (ground (arith, begins_complete t after))

includes-begins : (s t : String) → begins s t ≡ true → includes s t ≡ true
unfolding includes
includes-begins [] t h = h
includes-begins (c ∷ s) t h = rw h

includes_sound : (s t : String) → includes s t ≡ true → Contains s t
unfolding includes
includes_sound [] t h =
    let (after, e) = begins_sound [] t h in ("", after, e ∙ sym (nil-append (t <> after)))
includes_sound (c ∷ s) t h = elim (Bool-cases (begins (c ∷ s) t)) [
  | inl here ↦
      let (after, e) = begins_sound (c ∷ s) t here in ("", after, e ∙ sym (nil-append (t <> after)))
  | inr later ↦
      let (before, after, e) = includes_sound s t (ground arith) in
      (c ∷ before, after, ap (λ r. c ∷ r) e ∙ sym (cons-append c before (t <> after)))
]

includes-later : (c : Char) (s t : String) → includes s t ≡ true → includes (c ∷ s) t ≡ true
unfolding includes
includes-later c s t h = ground arith

includes_complete : (before t after : String) → includes (before <> (t <> after)) t ≡ true
includes_complete [] t after =
    rw (nil-append (t <> after)) (includes-begins (t <> after) t (begins_complete t after))
includes_complete (c ∷ before) t after =
    rw (cons-append c before (t <> after))
      (includes-later c (before <> (t <> after)) t (includes_complete before t after))

pub includes_iff : (s t : String) → (includes s t ≡ true) ↔ Contains s t
includes_iff s t =
    (includes_sound s t, λ (before, after, e). rw e (includes_complete before t after))

pub includes-empty : (s : String) → includes s "" ≡ true
includes-empty s = includes-begins s "" (unfold begins in refl)
