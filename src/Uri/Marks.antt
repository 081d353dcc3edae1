-- ===== src/Uri/Marks.antt =====
-- The characters that an encoded text does not have: those that separate the parts of an address.
use mcpxy.Prelude.{
  ℕ, zero, suc, ◌/◌, ◌%◌, String, code, Bool, true, false, List, [], ◌∷◌, ◌&&◌, ◌||◌, ◌≡◌, ◌≢◌,
  refl, arith, nat_eq, Bool-cases, inl, inr,
}
use mcpxy.Uri.{
  utf8, is_alphanumeric, Style, component_kept, form_kept, char_at, hex_digit, percent, percents,
  encode,
}

abbrev pub Avoids : ℕ → String → Type 0
Avoids mark String.[] = Unit
Avoids mark (String.◌∷◌ c s) = (code c ≢ mark) × Avoids mark s

-- `&`, `=`, `/`, `?` and `#`.
unfoldable pub is_mark : ℕ → Bool
is_mark c = nat_eq c b'&' || nat_eq c b'=' || nat_eq c b'/' || nat_eq c b'?' || nat_eq c b'#'

all_alphanumeric : String → Bool
all_alphanumeric String.[] = true
all_alphanumeric (String.◌∷◌ c s) = is_alphanumeric (code c) && all_alphanumeric s

char_at-alphanumeric :
    (n : ℕ) (s : String) → all_alphanumeric s ≡ true → is_alphanumeric (code (char_at n s)) ≡ true
unfolding char_at all_alphanumeric
char_at-alphanumeric n String.[] h = unfold is_alphanumeric in refl
char_at-alphanumeric zero (String.◌∷◌ c s) h = ground arith
char_at-alphanumeric (suc n) (String.◌∷◌ c s) h = ground (arith, char_at-alphanumeric n s)

digits_alphanumeric : all_alphanumeric "0123456789ABCDEF" ≡ true
unfolding all_alphanumeric is_alphanumeric
digits_alphanumeric = refl

-- A hexadecimal digit is a letter or a digit.
hex_digit-alphanumeric : (n : ℕ) → is_alphanumeric (code (hex_digit n)) ≡ true
unfolding hex_digit
hex_digit-alphanumeric n = char_at-alphanumeric n "0123456789ABCDEF" digits_alphanumeric

alphanumeric-mark : (c : ℕ) → is_alphanumeric c ≡ true → is_mark c ≡ false
unfolding is_alphanumeric is_mark
alphanumeric-mark c h = ground arith

hex_digit-mark : (n mark : ℕ) → is_mark mark ≡ true → code (hex_digit n) ≢ mark
hex_digit-mark n mark m e =
    let plain : is_mark (code (hex_digit n)) ≡ false =
      alphanumeric-mark (code (hex_digit n)) (hex_digit-alphanumeric n) in
    cc

percent-mark : (mark : ℕ) → is_mark mark ≡ true → ◌≢◌ {A = ℕ} b'%' mark
unfolding is_mark
percent-mark mark m e = ground arith

plus-mark : (mark : ℕ) → is_mark mark ≡ true → ◌≢◌ {A = ℕ} b'+' mark
unfolding is_mark
plus-mark mark m e = ground arith

percents-Avoids :
    (bytes : List ℕ) (rest : String) (mark : ℕ)
    → is_mark mark ≡ true
    → Avoids mark rest
    → Avoids mark (percents bytes rest)
unfolding percents percent
percents-Avoids [] rest mark m a = a
percents-Avoids (b ∷ bytes) rest mark m a = (
  percent-mark mark m,
  (
    hex_digit-mark (b / 16) mark m,
    (hex_digit-mark (b % 16) mark m, percents-Avoids bytes rest mark m a),
  ),
)

pub component-marks : (c : ℕ) → component_kept c ≡ true → is_mark c ≡ false
unfolding component_kept is_mark
component-marks c h = ground arith

pub form-marks : (c : ℕ) → form_kept c ≡ true → is_mark c ≡ false
unfolding form_kept is_mark
form-marks c h = ground arith

module _ (style : Style) (unmarked : (c : ℕ) → style.is_kept c ≡ true → is_mark c ≡ false) where
  kept-mark : (c mark : ℕ) → style.is_kept c ≡ true → is_mark mark ≡ true → c ≢ mark
  kept-mark c mark kept m e = let plain : is_mark c ≡ false = unmarked c kept in cc

  pub encode-Avoids : (s : String) (mark : ℕ) → is_mark mark ≡ true → Avoids mark (encode style s)
  unfolding encode
  encode-Avoids String.[] mark m = tt
  encode-Avoids (String.◌∷◌ c s) mark m = elim (Bool-cases (style.is_kept (code c))) [
    | inl kept ↦ rw kept (kept-mark (code c) mark kept m, encode-Avoids s mark m)
    | inr other ↦ elim (Bool-cases (style.has_plus && nat_eq (code c) b' ')) [
      | inl space ↦ rw (other, space) (plus-mark mark m, encode-Avoids s mark m)
      | inr rest ↦
          rw (other, rest)
            (percents-Avoids (utf8 (code c)) (encode style s) mark m (encode-Avoids s mark m))
    ]
  ]
