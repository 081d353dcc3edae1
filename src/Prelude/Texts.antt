-- ===== src/Prelude/Texts.antt =====
-- Strings as the dashboard's code uses them: truthiness, `trim`, decimal numbers, templates.
use Prim.Native.Nat.{ℕ, zero, suc, ◌+◌, ◌/◌, ◌%◌}
use Prim.Native.Char.{Char, code}
use Prim.Native.String
use Prim.Native.String.{String, [], ◌∷◌}
use mathlib.Core.Path.{◌≡◌, refl}
use mathlib.Core.Logic.{◌⊎◌, ◌≢◌, ◌↔◌, inl, inr}
use mathlib.Core.Bool.{Bool, true, false, ◌&&◌, ◌||◌}
use mathlib.Core.Option.{Option, none, some}
use text.Mathlib.TextLemmas.{cons-append}
use mcpxy.Prelude.Tests.{ltb, leb, nat_eq, if◌then◌else◌}

infixr 66 ◌<>◌
-- `${s}${t}`
abbrev pub ◌<>◌ : String → String → String
s <> t = String.◌++◌ s t

-- A string where a condition is expected: only the empty one is falsy.
abbrev pub truthy : String → Bool
truthy [] = false
truthy (c ∷ s) = true

-- `s || null`, `s || undefined`
abbrev pub or_null : String → Option String
or_null [] = none
or_null (c ∷ s) = some (c ∷ s)

-- White space and line ends, as `trim` and `\s` know them.
unfoldable pub is_space : ℕ → Bool
is_space n =
    (leb 9 n && leb n 13)
    || nat_eq n 32
    || nat_eq n 160
    || nat_eq n 5760
    || (leb 8192 n && leb n 8202)
    || nat_eq n 8232
    || nat_eq n 8233
    || nat_eq n 8239
    || nat_eq n 8287
    || nat_eq n 12288
    || nat_eq n 65279

unfoldable pub trim_start : String → String
trim_start [] = []
trim_start (c ∷ s) = let rest = trim_start s in if is_space (code c) then rest else c ∷ s

-- Puts a character before a trimmed text.
abbrev keep_unless_blank : Char → String → String
keep_unless_blank c [] = if is_space (code c) then [] else c ∷ []
keep_unless_blank c (d ∷ s) = c ∷ d ∷ s

unfoldable pub trim_end : String → String
trim_end [] = []
trim_end (c ∷ s) = keep_unless_blank c (trim_end s)

unfoldable pub trim : String → String
unfolding trim_start trim_end is_space
trim s = trim_end (trim_start s)

-- `s.length`: a character above U+FFFF takes two code units.
unfoldable pub utf16_length : String → ℕ
utf16_length [] = 0
utf16_length (c ∷ s) = (if ltb 65535 (code c) then 2 else 1) + utf16_length s

-- `String(n)` of a natural number, on fuel; `show` gives enough.
abbrev pub digit : ℕ → String
digit zero = "0"
digit (suc zero) = "1"
digit (suc (suc zero)) = "2"
digit (suc (suc (suc zero))) = "3"
digit (suc (suc (suc (suc zero)))) = "4"
digit (suc (suc (suc (suc (suc zero))))) = "5"
digit (suc (suc (suc (suc (suc (suc zero)))))) = "6"
digit (suc (suc (suc (suc (suc (suc (suc zero))))))) = "7"
digit (suc (suc (suc (suc (suc (suc (suc (suc zero)))))))) = "8"
digit _ = "9"

show_from : ℕ → ℕ → String → String
show_from zero n out = out
show_from (suc fuel) n out =
    let rest = show_from fuel (n / 10) (digit (n % 10) <> out) in
    if ltb n 10 then digit n <> out else rest

unfoldable pub show : ℕ → String
unfolding show_from
show n = show_from (suc n) n ""

pub truthy-cases : (s : String) → ((truthy s ≡ true) × (s ≢ "")) ⊎ ((truthy s ≡ false) × (s ≡ ""))
truthy-cases [] = inr (refl, refl)
truthy-cases (c ∷ s) = inl (refl, λ e. cc)

pub truthy_iff : (s : String) → (truthy s ≡ true) ↔ (s ≢ "")
truthy_iff [] = (λ e. cc, λ n. absurd (n refl))
truthy_iff (c ∷ s) = (λ e p. cc, λ n. refl)

pub or_null-ne-none_iff : (s : String) → (or_null s ≢ none) ↔ (truthy s ≡ true)
or_null-ne-none_iff [] = (λ n. absurd (n refl), λ e p. cc)
or_null-ne-none_iff (c ∷ s) = (λ n. refl, λ e p. cc)

pub truthy-append : (s t : String) → truthy s ≡ true → truthy (s <> t) ≡ true
truthy-append [] t h = cc
truthy-append (c ∷ s) t h = rw cons-append
