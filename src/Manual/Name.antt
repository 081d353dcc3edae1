-- ===== src/Manual/Name.antt =====
-- NAME_RE of AddManuallyDialog.tsx, `^[A-Za-z0-9_][A-Za-z0-9_\-]*$`.
use Prim.Native.String.{String, [], ◌∷◌}
use mcpxy.Prelude.{ℕ, code, Bool, true, false, ◌&&◌, ◌||◌, leb, nat_eq}

unfoldable pub is_word_char : ℕ → Bool
is_word_char c =
    (leb b'A' c && leb c b'Z')
    || (leb b'a' c && leb c b'z')
    || (leb b'0' c && leb c b'9')
    || nat_eq c b'_'

unfoldable pub is_name_tail : String → Bool
unfolding is_word_char
is_name_tail [] = true
is_name_tail (c ∷ s) = (is_word_char (code c) || nat_eq (code c) b'-') && is_name_tail s

-- `NAME_RE.test(name)`
unfoldable pub name_valid : String → Bool
unfolding is_word_char is_name_tail
name_valid [] = false
name_valid (c ∷ s) = is_word_char (code c) && is_name_tail s
