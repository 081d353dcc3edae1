-- ===== src/Onboarding/Token/Reading.antt =====
-- What a generated token holds.
use mcpxy.Prelude.{
  ℕ, suc, ◌+◌, ◌-◌, ◌*◌, ◌/◌, ◌%◌, ◌<◌, String, Char, code, true, false, not, List, [], ◌∷◌, ◌≡◌,
  refl, sym, ap, ◌∙◌, arith, All, leb, nat_eq, ◌&&◌, Bool-cases, inl, inr, length, if◌then◌else◌,
}
use mcpxy.Uri.Query.{put_mark}
use mcpxy.Uri.Reading.{all_below, all_below_sound}
use mcpxy.Onboarding.Token.{base64_digit, btoa, replace_all, url_safe, generate_token}

-- The value of a digit of the url-safe alphabet.
unfoldable pub digit_value : ℕ → ℕ
digit_value c =
    if leb b'a' c
    then c - 71
    else if nat_eq c b'_'
    then 63
    else if leb b'A' c
    then c - 65
    else if nat_eq c b'-'
    then 62
    else c + 4

unfoldable pub bytes_in : String → List ℕ
bytes_in String.[] = []
bytes_in (String.◌∷◌ a String.[]) = []
bytes_in (String.◌∷◌ a (String.◌∷◌ b String.[])) =
    (digit_value (code a) * 4 + digit_value (code b) / 16) ∷ []
bytes_in (String.◌∷◌ a (String.◌∷◌ b (String.◌∷◌ c String.[]))) =
    (digit_value (code a) * 4 + digit_value (code b) / 16)
    ∷ (digit_value (code b) % 16 * 16 + digit_value (code c) / 4)
    ∷ []
bytes_in (String.◌∷◌ a (String.◌∷◌ b (String.◌∷◌ c (String.◌∷◌ d s)))) =
    (digit_value (code a) * 4 + digit_value (code b) / 16)
    ∷ (digit_value (code b) % 16 * 16 + digit_value (code c) / 4)
    ∷ (digit_value (code c) % 4 * 64 + digit_value (code d))
    ∷ bytes_in s

-- What becomes of a digit.
safe_digit : Char → Char
safe_digit c = if nat_eq (code c) b'+' then "-" else if nat_eq (code c) b'/' then "_" else c

replace_all-kept :
    (from : ℕ) (to : String) (c : Char) (s : String)
    → nat_eq (code c) from ≡ false
    → replace_all from to (String.◌∷◌ c s) ≡ String.◌∷◌ c (replace_all from to s)
unfolding replace_all
replace_all-kept from to c s h = rw h refl

replace_all-taken :
    (from : ℕ) (m c : Char) (s : String)
    → nat_eq (code c) from ≡ true
    → replace_all from (String.◌∷◌ m "") (String.◌∷◌ c s)
      ≡ String.◌∷◌ m (replace_all from (String.◌∷◌ m "") s)
unfolding replace_all
replace_all-taken from m c s h = rw h (put_mark m (replace_all from (String.◌∷◌ m "") s))

without_padding : String → String
without_padding s = replace_all b'=' "" s

without_slash : String → String
without_slash s = replace_all b'=' "" (replace_all b'/' "_" s)

safe_digit-plus : (c : Char) → nat_eq (code c) b'+' ≡ true → safe_digit c ≡ "-"
unfolding safe_digit
safe_digit-plus c h = rw h refl

safe_digit-slash :
    (c : Char) → nat_eq (code c) b'+' ≡ false → nat_eq (code c) b'/' ≡ true → safe_digit c ≡ "_"
unfolding safe_digit
safe_digit-slash c h k = rw (h, k) refl

safe_digit-plain :
    (c : Char) → nat_eq (code c) b'+' ≡ false → nat_eq (code c) b'/' ≡ false → safe_digit c ≡ c
unfolding safe_digit
safe_digit-plain c h k = rw (h, k) refl

put_digit : String → Char → String
put_digit s d = String.◌∷◌ d (url_safe s)

url_safe-digit :
    (c : Char) (s : String)
    → nat_eq (code c) b'=' ≡ false
    → url_safe (String.◌∷◌ c s) ≡ String.◌∷◌ (safe_digit c) (url_safe s)
unfolding url_safe without_padding without_slash put_digit
url_safe-digit c s h = elim (Bool-cases (nat_eq (code c) b'+')) [
  | inl plus ↦
      ap without_slash (replace_all-taken b'+' "-" c s plus)
      ∙ ap without_padding (replace_all-kept b'/' "_" "-" (replace_all b'+' "-" s) refl)
      ∙ replace_all-kept b'=' "" "-" (replace_all b'/' "_" (replace_all b'+' "-" s)) refl
      ∙ ap (put_digit s) (sym (safe_digit-plus c plus))
  | inr other ↦ elim (Bool-cases (nat_eq (code c) b'/')) [
    | inl slash ↦
        ap without_slash (replace_all-kept b'+' "-" c s other)
        ∙ ap without_padding (replace_all-taken b'/' "_" c (replace_all b'+' "-" s) slash)
        ∙ replace_all-kept b'=' "" "_" (replace_all b'/' "_" (replace_all b'+' "-" s)) refl
        ∙ ap (put_digit s) (sym (safe_digit-slash c other slash))
    | inr plain ↦
        ap without_slash (replace_all-kept b'+' "-" c s other)
        ∙ ap without_padding (replace_all-kept b'/' "_" c (replace_all b'+' "-" s) plain)
        ∙ replace_all-kept b'=' "" c (replace_all b'/' "_" (replace_all b'+' "-" s)) h
        ∙ ap (put_digit s) (sym (safe_digit-plain c other plain))
  ]
]

digits_table :
    all_below 64 (λ n.
      nat_eq (digit_value (code (safe_digit (base64_digit n)))) n
      && not (nat_eq (code (base64_digit n)) b'='))
    ≡ true
unfolding all_below digit_value safe_digit base64_digit
digits_table = refl

digit_lem :
    (n : ℕ)
    → n < 64
    → (digit_value (code (safe_digit (base64_digit n))) ≡ n)
      × (nat_eq (code (base64_digit n)) b'=' ≡ false)
digit_lem n h =
    let row : nat_eq (digit_value (code (safe_digit (base64_digit n)))) n
          && not (nat_eq (code (base64_digit n)) b'=')
        ≡ true =
      all_below_sound 64
        (λ n.
          nat_eq (digit_value (code (safe_digit (base64_digit n)))) n
          && not (nat_eq (code (base64_digit n)) b'='))
        n digits_table h in
    ground arith

token_digit : ℕ → Char
token_digit n = safe_digit (base64_digit n)

url_safe-base64_digit :
    (n : ℕ) (s : String)
    → n < 64
    → url_safe (String.◌∷◌ (base64_digit n) s) ≡ String.◌∷◌ (token_digit n) (url_safe s)
unfolding token_digit
url_safe-base64_digit n s h = url_safe-digit (base64_digit n) s (digit_lem n h).1

value_lem : (n : ℕ) → n < 64 → digit_value (code (token_digit n)) ≡ n
unfolding token_digit
value_lem n h = (digit_lem n h).0

no_padding : (url_safe "=" ≡ "") × (url_safe "==" ≡ "") × (url_safe "" ≡ "")
unfolding url_safe
no_padding = (refl, refl, refl)

abbrev put_token : ℕ → String → String
put_token n s = String.◌∷◌ (token_digit n) s

two_digits :
    (n m : ℕ) (s : String)
    → n < 64
    → m < 64
    → url_safe (String.◌∷◌ (base64_digit n) (String.◌∷◌ (base64_digit m) s))
      ≡ put_token n (put_token m (url_safe s))
two_digits n m s h k =
    url_safe-base64_digit n (String.◌∷◌ (base64_digit m) s) h
    ∙ ap (put_token n) (url_safe-base64_digit m s k)

one_byte : (a : ℕ) → a < 256 → bytes_in (put_token (a / 4) (put_token (a % 4 * 16) "")) ≡ a ∷ []
unfolding bytes_in
one_byte a h = ground (arith, value_lem (a / 4), value_lem (a % 4 * 16))

two_bytes :
    (a b : ℕ)
    → a < 256
    → b < 256
    → bytes_in (put_token (a / 4) (put_token (a % 4 * 16 + b / 16) (put_token (b % 16 * 4) "")))
      ≡ a ∷ b ∷ []
unfolding bytes_in
two_bytes a b h k =
    ground (arith, value_lem (a / 4), value_lem (a % 4 * 16 + b / 16), value_lem (b % 16 * 4))

three_bytes :
    (a b c : ℕ) (s : String)
    → a < 256
    → b < 256
    → c < 256
    → bytes_in (
        put_token (a / 4) (
          put_token (a % 4 * 16 + b / 16) (put_token (b % 16 * 4 + c / 64) (put_token (c % 64) s))))
      ≡ a ∷ b ∷ c ∷ bytes_in s
unfolding bytes_in
three_bytes a b c s h k l = ground (
  arith,
  value_lem (a / 4),
  value_lem (a % 4 * 16 + b / 16),
  value_lem (b % 16 * 4 + c / 64),
  value_lem (c % 64),
)

-- The token of one, two and three bytes.
one_lem :
    (a : ℕ) → a < 256 → generate_token (a ∷ []) ≡ put_token (a / 4) (put_token (a % 4 * 16) "")
unfolding generate_token btoa
one_lem a h =
    two_digits (a / 4) (a % 4 * 16) "==" (omega arith) (omega arith)
    ∙ ap (λ (s : String). put_token (a / 4) (put_token (a % 4 * 16) s)) no_padding.1

two_lem :
    (a b : ℕ)
    → a < 256
    → b < 256
    → generate_token (a ∷ b ∷ [])
      ≡ put_token (a / 4) (put_token (a % 4 * 16 + b / 16) (put_token (b % 16 * 4) ""))
unfolding generate_token btoa
two_lem a b h k =
    two_digits (a / 4) (a % 4 * 16 + b / 16) _ (omega arith) (omega arith)
    ∙ ap (λ (s : String). put_token (a / 4) (put_token (a % 4 * 16 + b / 16) s))
        (url_safe-base64_digit (b % 16 * 4) "=" (omega arith)
          ∙ ap (put_token (b % 16 * 4)) no_padding.0)

three_lem :
    (a b c : ℕ) (bytes : List ℕ)
    → a < 256
    → b < 256
    → c < 256
    → generate_token (a ∷ b ∷ c ∷ bytes)
      ≡ put_token (a / 4) (
          put_token
            (a % 4 * 16 + b / 16)
            (put_token (b % 16 * 4 + c / 64) (put_token (c % 64) (generate_token bytes))))
unfolding generate_token btoa
three_lem a b c bytes h k l =
    two_digits (a / 4) (a % 4 * 16 + b / 16) _ (omega arith) (omega arith)
    ∙ ap (λ (s : String). put_token (a / 4) (put_token (a % 4 * 16 + b / 16) s))
        (two_digits (b % 16 * 4 + c / 64) (c % 64) (btoa bytes) (omega arith) (omega arith))

-- Reading a token gives back the bytes that it was made of.
bytes_in-generate_token :
    (bytes : List ℕ) → All (λ (b : ℕ). b < 256) bytes → bytes_in (generate_token bytes) ≡ bytes
bytes_in-generate_token [] h = unfold generate_token btoa bytes_in in ap bytes_in no_padding.2
bytes_in-generate_token (a ∷ []) (h, _) = ap bytes_in (one_lem a h) ∙ one_byte a h
bytes_in-generate_token (a ∷ (b ∷ [])) (h, (k, _)) =
    ap bytes_in (two_lem a b h k) ∙ two_bytes a b h k
bytes_in-generate_token (a ∷ (b ∷ (c ∷ bytes))) (h, (k, (l, hs))) =
    ap bytes_in (three_lem a b c bytes h k l)
    ∙ three_bytes a b c (generate_token bytes) h k l
    ∙ ap (λ (rest : List ℕ). a ∷ b ∷ c ∷ rest) (bytes_in-generate_token bytes hs)

abbrev pub characters : String → ℕ
characters String.[] = 0
characters (String.◌∷◌ c s) = suc (characters s)

characters-generate_token :
    (bytes : List ℕ)
    → All (λ (b : ℕ). b < 256) bytes
    → characters (generate_token bytes) ≡ (length bytes * 4 + 2) / 3
characters-generate_token [] h =
    unfold generate_token btoa in ap characters no_padding.2 ∙ omega arith
characters-generate_token (a ∷ []) (h, _) = ap characters (one_lem a h) ∙ omega arith
characters-generate_token (a ∷ (b ∷ [])) (h, (k, _)) = ap characters (two_lem a b h k) ∙ omega arith
characters-generate_token (a ∷ (b ∷ (c ∷ bytes))) (h, (k, (l, hs))) =
    ap characters (three_lem a b c bytes h k l) ∙ omega (arith, characters-generate_token bytes hs)

-- A token of 32 bytes has 43 characters, and reading it in the url-safe alphabet gives back the
-- bytes: nothing of their randomness is lost.
pub generate_token_lem :
    (bytes : List ℕ)
    → length bytes ≡ 32
    → All (λ (b : ℕ). b < 256) bytes
    → (characters (generate_token bytes) ≡ 43) × (bytes_in (generate_token bytes) ≡ bytes)
generate_token_lem bytes size h =
    (omega (arith, characters-generate_token bytes h), bytes_in-generate_token bytes h)
