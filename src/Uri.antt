-- ===== src/Uri.antt =====
-- `encodeURIComponent` and the serialiser of `URLSearchParams`, by which the pages put texts into
-- addresses, and how a server reads such a text.
pub mod Marks
pub mod Query
pub mod Reading
use Prim.Native.String
use mcpxy.Prelude.{
  ℕ, zero, suc, ◌+◌, ◌-◌, ◌*◌, ◌/◌, ◌%◌, String, Char, code, Bool, true, false, List, [], ◌∷◌, ◌++◌,
  ◌&&◌, ◌||◌, leb, ltb, nat_eq, ◌<>◌, if◌then◌else◌,
}

-- The bytes of a character, from its number, and those of a text.
unfoldable pub utf8 : ℕ → List ℕ
utf8 n =
    if ltb n 128
    then n ∷ []
    else if ltb n 2048
    then (192 + n / 64 % 32) ∷ (128 + n % 64) ∷ []
    else if ltb n 65536
    then (224 + n / 4096 % 16) ∷ (128 + n / 64 % 64) ∷ (128 + n % 64) ∷ []
    else (240 + n / 262144 % 8) ∷ (128 + n / 4096 % 64) ∷ (128 + n / 64 % 64) ∷ (128 + n % 64) ∷ []

unfoldable pub bytes_of : String → List ℕ
unfolding utf8
bytes_of String.[] = []
bytes_of (String.◌∷◌ c s) = utf8 (code c) ++ bytes_of s

unfoldable pub is_alphanumeric : ℕ → Bool
is_alphanumeric c =
    (leb b'A' c && leb c b'Z') || (leb b'a' c && leb c b'z') || (leb b'0' c && leb c b'9')

-- Which characters stay as they are, and whether a space is written as a plus sign.
pub record Style : Type 0 where
  pub is_kept : ℕ → Bool
  pub has_plus : Bool

unfoldable pub component_kept : ℕ → Bool
unfolding is_alphanumeric
component_kept c =
    is_alphanumeric c
    || nat_eq c b'-'
    || nat_eq c b'_'
    || nat_eq c b'.'
    || nat_eq c b'!'
    || nat_eq c b'~'
    || nat_eq c b'*'
    || nat_eq c 39
    || nat_eq c b'('
    || nat_eq c b')'

unfoldable pub form_kept : ℕ → Bool
unfolding is_alphanumeric
form_kept c = is_alphanumeric c || nat_eq c b'*' || nat_eq c b'-' || nat_eq c b'.' || nat_eq c b'_'

abbrev pub component : Style
component = record { is_kept = component_kept; has_plus = false }

abbrev pub form : Style
form = record { is_kept = form_kept; has_plus = true }

-- The character at a place, `0` behind the end.
unfoldable pub char_at : ℕ → String → Char
char_at n String.[] = "0"
char_at zero (String.◌∷◌ c s) = c
char_at (suc n) (String.◌∷◌ c s) = char_at n s

unfoldable pub hex_digit : ℕ → Char
unfolding char_at
hex_digit n = char_at n "0123456789ABCDEF"

unfoldable pub percent : ℕ → String → String
unfolding hex_digit
percent b rest =
    String.◌∷◌ "%" (String.◌∷◌ (hex_digit (b / 16)) (String.◌∷◌ (hex_digit (b % 16)) rest))

unfoldable pub percents : List ℕ → String → String
unfolding percent
percents [] rest = rest
percents (b ∷ bytes) rest = percent b (percents bytes rest)

unfoldable pub encode : Style → String → String
unfolding percents utf8
encode style String.[] = String.[]
encode style (String.◌∷◌ c s) =
    let rest = encode style s in
    if style.is_kept (code c)
    then String.◌∷◌ c rest
    else if style.has_plus && nat_eq (code c) b' '
    then String.◌∷◌ "+" rest
    else percents (utf8 (code c)) rest

-- `encodeURIComponent(s)`
abbrev pub encode_uri_component : String → String
encode_uri_component = encode component

unfoldable pub pair_text : String × String → String
pair_text (name, value) = encode form name <> ("=" <> encode form value)

-- `params.toString()`
unfoldable pub serialise : List (String × String) → String
unfolding pair_text
serialise [] = ""
serialise (pair ∷ []) = pair_text pair
serialise (pair ∷ (next ∷ pairs)) = pair_text pair <> ("&" <> serialise (next ∷ pairs))
