-- ===== src/Onboarding/Token.antt =====
-- `generateToken` of Onboarding.tsx: the text that is made of 32 random bytes, and `btoa`.
pub mod Reading
use Prim.Native.String
use mcpxy.Prelude.{
  ℕ, ◌+◌, ◌*◌, ◌/◌, ◌%◌, String, Char, code, List, [], ◌∷◌, ◌<>◌, nat_eq, if◌then◌else◌,
}
use mcpxy.Uri.{char_at}

unfoldable pub base64_digit : ℕ → Char
unfolding char_at
base64_digit n = char_at n "ABCDEFGHIJKLMNOPQRSTUVWXYZabcdefghijklmnopqrstuvwxyz0123456789+/"

-- `btoa` of the characters of the bytes.
unfoldable pub btoa : List ℕ → String
btoa [] = ""
btoa (a ∷ []) = String.◌∷◌ (base64_digit (a / 4)) (String.◌∷◌ (base64_digit (a % 4 * 16)) "==")
btoa (a ∷ (b ∷ [])) =
    String.◌∷◌ (base64_digit (a / 4))
      (String.◌∷◌ (base64_digit (a % 4 * 16 + b / 16)) (String.◌∷◌ (base64_digit (b % 16 * 4)) "="))
btoa (a ∷ (b ∷ (c ∷ bytes))) = String.◌∷◌ (base64_digit (a / 4)) (
    String.◌∷◌ (base64_digit (a % 4 * 16 + b / 16)) (
      String.◌∷◌ (base64_digit (b % 16 * 4 + c / 64))
        (String.◌∷◌ (base64_digit (c % 64)) (btoa bytes))))

-- `s.replaceAll(from, to)` for a text `from` of one character.
unfoldable pub replace_all : ℕ → String → String → String
replace_all from to String.[] = ""
replace_all from to (String.◌∷◌ c s) =
    let rest = replace_all from to s in
    if nat_eq (code c) from then to <> rest else String.◌∷◌ c rest

unfoldable pub url_safe : String → String
unfolding replace_all
url_safe s = replace_all b'=' "" (replace_all b'/' "_" (replace_all b'+' "-" s))

-- The token of the random bytes.
unfoldable pub generate_token : List ℕ → String
generate_token bytes = url_safe (btoa bytes)
