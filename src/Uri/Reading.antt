-- ===== src/Uri/Reading.antt =====
-- What a server reads from an encoded text.
use mcpxy.Prelude.{
  ℕ, zero, suc, ◌+◌, ◌-◌, ◌*◌, ◌/◌, ◌%◌, ◌<◌, String, Char, code, Bool, true, false, List, [], ◌∷◌,
  ◌++◌, ◌&&◌, ◌≡◌, refl, sym, ap, ◌∙◌, arith, All, leb, nat_eq, Bool-cases, inl, inr, if◌then◌else◌,
}
use mcpxy.Uri.{
  utf8, bytes_of, Style, component_kept, form_kept, component, form, hex_digit, percent, percents,
  encode,
}

unfoldable pub digit_value : ℕ → ℕ
digit_value c = if leb c b'9' then c - 48 else if leb c b'F' then c - 55 else c - 87

abbrev pub plain : Bool → ℕ → ℕ
plain has_plus c = if has_plus && nat_eq c b'+' then b' ' else c

-- Percent-decoding, which replaces plus signs first where the form's rules hold. A percent sign
-- without two characters after it stands for itself.
unfoldable pub decode : (has_plus : Bool) → String → List ℕ
decode has_plus String.[] = []
decode has_plus (String.◌∷◌ c String.[]) = plain has_plus (code c) ∷ []
decode has_plus (String.◌∷◌ c (String.◌∷◌ a String.[])) =
    plain has_plus (code c) ∷ decode has_plus (String.◌∷◌ a String.[])
decode has_plus (String.◌∷◌ c (String.◌∷◌ a (String.◌∷◌ b s))) =
    let after = decode has_plus s in
    let next = decode has_plus (String.◌∷◌ a (String.◌∷◌ b s)) in
    if nat_eq (code c) b'%'
    then (digit_value (code a) * 16 + digit_value (code b)) ∷ after
    else plain has_plus (code c) ∷ next

unfoldable pub all_below : ℕ → (ℕ → Bool) → Bool
all_below zero test = true
all_below (suc n) test = test n && all_below n test

pub all_below_sound :
    (n : ℕ) (test : ℕ → Bool) (x : ℕ) → all_below n test ≡ true → x < n → test x ≡ true
unfolding all_below
all_below_sound zero test x h lt = absurd (omega arith)
all_below_sound (suc n) test x h lt = ground (arith, all_below_sound n test x)

digits_table : all_below 16 (λ n. nat_eq (digit_value (code (hex_digit n))) n) ≡ true
unfolding all_below digit_value hex_digit
digits_table = refl

digit_value-hex_digit : (n : ℕ) → n < 16 → digit_value (code (hex_digit n)) ≡ n
digit_value-hex_digit n h =
    let same : nat_eq (digit_value (code (hex_digit n))) n ≡ true =
      all_below_sound 16 (λ n. nat_eq (digit_value (code (hex_digit n))) n) n digits_table h in
    ground arith

decode-percent :
    (has_plus : Bool) (b : ℕ) (rest : String)
    → b < 256
    → decode has_plus (percent b rest) ≡ b ∷ decode has_plus rest
unfolding decode percent
decode-percent has_plus b rest h =
    ap (λ (n : ℕ). n ∷ decode has_plus rest)
      (omega (arith, digit_value-hex_digit (b / 16), digit_value-hex_digit (b % 16)))

decode-percents :
    (has_plus : Bool) (bytes : List ℕ) (rest : String)
    → All (λ (b : ℕ). b < 256) bytes
    → decode has_plus (percents bytes rest) ≡ bytes ++ decode has_plus rest
unfolding percents
decode-percents has_plus [] rest h = refl
decode-percents has_plus (b ∷ bytes) rest (h, hs) =
    decode-percent has_plus b (percents bytes rest) h
    ∙ ap (λ (l : List ℕ). b ∷ l) (decode-percents has_plus bytes rest hs)

decode-plain :
    (has_plus : Bool) (c : Char) (s : String)
    → nat_eq (code c) b'%' ≡ false
    → decode has_plus (String.◌∷◌ c s) ≡ plain has_plus (code c) ∷ decode has_plus s
unfolding decode
decode-plain has_plus c String.[] h = refl
decode-plain has_plus c (String.◌∷◌ a String.[]) h = refl
decode-plain has_plus c (String.◌∷◌ a (String.◌∷◌ b s)) h = rw h refl

utf8-lt : (n : ℕ) → All (λ (b : ℕ). b < 256) (utf8 n)
unfolding utf8
utf8-lt n = ground arith

-- What both styles keep.
pub record IsSound (style : Style) : Type 0 where
  pub kept-lt : (c : ℕ) → style.is_kept c ≡ true → c < 128
  pub kept-percent : (c : ℕ) → style.is_kept c ≡ true → nat_eq c b'%' ≡ false
  pub kept-plus : (c : ℕ) → style.is_kept c ≡ true → nat_eq c b'+' ≡ false

pub component-IsSound : IsSound component
unfolding component_kept
component-IsSound = record {
  kept-lt = λ c h. ground arith;
  kept-percent = λ c h. ground arith;
  kept-plus = λ c h. ground arith;
}

pub form-IsSound : IsSound form
unfolding form_kept
form-IsSound = record {
  kept-lt = λ c h. ground arith;
  kept-percent = λ c h. ground arith;
  kept-plus = λ c h. ground arith;
}

utf8-ascii : (n : ℕ) → n < 128 → utf8 n ≡ n ∷ []
unfolding utf8
utf8-ascii n h = ground arith

module _ (style : Style) (sound : IsSound style) where
  encode-kept :
      (c : Char) (s : String)
      → style.is_kept (code c) ≡ true
      → encode style (String.◌∷◌ c s) ≡ String.◌∷◌ c (encode style s)
  unfolding encode
  encode-kept c s h = rw h refl

  encode-space :
      (c : Char) (s : String)
      → style.is_kept (code c) ≡ false
      → style.has_plus && nat_eq (code c) b' ' ≡ true
      → encode style (String.◌∷◌ c s) ≡ String.◌∷◌ "+" (encode style s)
  unfolding encode
  encode-space c s h e = rw (h, e) refl

  encode-other :
      (c : Char) (s : String)
      → style.is_kept (code c) ≡ false
      → style.has_plus && nat_eq (code c) b' ' ≡ false
      → encode style (String.◌∷◌ c s) ≡ percents (utf8 (code c)) (encode style s)
  unfolding encode
  encode-other c s h e = rw (h, e) refl

  plain-kept : (c : ℕ) → style.is_kept c ≡ true → plain style.has_plus c ≡ c
  plain-kept c h = ground (arith, sound.kept-plus c h)

  plain-space : (c : ℕ) → style.has_plus && nat_eq c b' ' ≡ true → plain style.has_plus b'+' ≡ c
  plain-space c e = ground arith

  decode-space :
      (c : ℕ) (s : String)
      → style.has_plus && nat_eq c b' ' ≡ true
      → decode style.has_plus (String.◌∷◌ "+" s) ≡ utf8 c ++ decode style.has_plus s
  decode-space c s e =
      decode-plain style.has_plus "+" s refl
      ∙ ap (λ (n : ℕ). n ∷ decode style.has_plus s) (plain-space c e)
      ∙ ap (λ (l : List ℕ). l ++ decode style.has_plus s) (sym (utf8-ascii c (ground arith)))

  decode-kept :
      (c : Char) (s : String)
      → style.is_kept (code c) ≡ true
      → decode style.has_plus (String.◌∷◌ c s) ≡ utf8 (code c) ++ decode style.has_plus s
  decode-kept c s h =
      decode-plain style.has_plus c s (sound.kept-percent (code c) h)
      ∙ ap (λ (n : ℕ). n ∷ decode style.has_plus s) (plain-kept (code c) h)
      ∙ ap (λ (l : List ℕ). l ++ decode style.has_plus s)
          (sym (utf8-ascii (code c) (sound.kept-lt (code c) h)))

  -- What a server reads from an encoded text are the bytes of the text.
  pub decode-encode : (s : String) → decode style.has_plus (encode style s) ≡ bytes_of s
  unfolding bytes_of
  decode-encode String.[] = unfold decode encode in refl
  decode-encode (String.◌∷◌ c s) = elim (Bool-cases (style.is_kept (code c))) [
    | inl kept ↦
        ap (decode style.has_plus) (encode-kept c s kept)
        ∙ decode-kept c (encode style s) kept
        ∙ ap (λ (l : List ℕ). utf8 (code c) ++ l) (decode-encode s)
    | inr other ↦ elim (Bool-cases (style.has_plus && nat_eq (code c) b' ')) [
      | inl space ↦
          ap (decode style.has_plus) (encode-space c s other space)
          ∙ decode-space (code c) (encode style s) space
          ∙ ap (λ (l : List ℕ). utf8 (code c) ++ l) (decode-encode s)
      | inr rest ↦
          ap (decode style.has_plus) (encode-other c s other rest)
          ∙ decode-percents style.has_plus (utf8 (code c)) (encode style s) (utf8-lt (code c))
          ∙ ap (λ (l : List ℕ). utf8 (code c) ++ l) (decode-encode s)
    ]
  ]
