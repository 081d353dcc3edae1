-- ===== src/Uri/Query.antt =====
-- A query as a server reads it, and as the pages write it.
use text.Mathlib.TextLemmas.{cons-append, nil-append}
use mcpxy.Prelude.{
  ℕ, String, Char, code, Bool, true, false, List, [], ◌∷◌, ◌≡◌, refl, ap, ◌∙◌, arith, nat_eq,
  truthy, ◌<>◌, map, filter, not, ◌||◌, if◌then◌else◌,
}
use mcpxy.Uri.{form, encode, bytes_of, pair_text, serialise}
use mcpxy.Uri.Reading.{decode, decode-encode, form-IsSound}
use mcpxy.Uri.Marks.{Avoids, is_mark, encode-Avoids, form-marks}

abbrev pub put_first : Char → List String → List String
put_first c [] = String.◌∷◌ c "" ∷ []
put_first c (part ∷ rest) = String.◌∷◌ c part ∷ rest

-- The parts between the marks.
unfoldable pub parts : ℕ → String → List String
parts mark String.[] = "" ∷ []
parts mark (String.◌∷◌ c s) =
    if nat_eq (code c) mark then "" ∷ parts mark s else put_first c (parts mark s)

-- The text before the first mark, and that behind it.
unfoldable pub before : ℕ → String → String
before mark String.[] = ""
before mark (String.◌∷◌ c s) = if nat_eq (code c) mark then "" else String.◌∷◌ c (before mark s)

unfoldable pub behind : ℕ → String → String
behind mark String.[] = ""
behind mark (String.◌∷◌ c s) = if nat_eq (code c) mark then s else behind mark s

abbrev pub read_part : String → List ℕ × List ℕ
read_part part = (decode true (before b'=' part), decode true (behind b'=' part))

-- The bytes of the names and the values of a query; empty parts are passed over.
unfoldable pub parse_query : String → List (List ℕ × List ℕ)
parse_query s = map read_part (filter truthy (parts b'&' s))

parts-Avoids : (mark : ℕ) (s : String) → Avoids mark s → parts mark s ≡ s ∷ []
unfolding parts
parts-Avoids mark String.[] a = refl
parts-Avoids mark (String.◌∷◌ c s) (n, a) = ground (arith, parts-Avoids mark s a)

parts-append :
    (m : Char) (s rest : String)
    → Avoids (code m) s
    → parts (code m) (s <> String.◌∷◌ m rest) ≡ s ∷ parts (code m) rest
unfolding parts
parts-append m String.[] rest a = rw (nil-append) (ground arith)
parts-append m (String.◌∷◌ c s) rest (n, a) =
    rw (cons-append c s (String.◌∷◌ m rest)) (ground (arith, parts-append m s rest a))

pub before-append :
    (m : Char) (s rest : String)
    → Avoids (code m) s
    → (before (code m) (s <> String.◌∷◌ m rest) ≡ s)
      × (behind (code m) (s <> String.◌∷◌ m rest) ≡ rest)
unfolding before behind
before-append m String.[] rest a = rw (nil-append) (ground arith)
before-append m (String.◌∷◌ c s) rest (n, a) =
    rw (cons-append c s (String.◌∷◌ m rest)) (ground (arith, before-append m s rest a))

unfoldable pub includes_code : ℕ → String → Bool
includes_code mark String.[] = false
includes_code mark (String.◌∷◌ c s) = nat_eq (code c) mark || includes_code mark s

-- The text has the mark as its last character and nowhere else.
unfoldable pub ends_in : ℕ → String → Bool
ends_in mark String.[] = false
ends_in mark (String.◌∷◌ c s) = if nat_eq (code c) mark then not (truthy s) else ends_in mark s

pub behind-prefix :
    (mark : ℕ) (s rest : String) → ends_in mark s ≡ true → behind mark (s <> rest) ≡ rest
unfolding behind ends_in
behind-prefix mark String.[] rest e = cc
behind-prefix mark (String.◌∷◌ c String.[]) rest e =
    rw (cons-append c "" rest) (ground (arith, nil-append rest))
behind-prefix mark (String.◌∷◌ c (String.◌∷◌ d s)) rest e =
    rw (cons-append c (String.◌∷◌ d s) rest)
      (ground (arith, behind-prefix mark (String.◌∷◌ d s) rest))

pub behind-skip :
    (mark : ℕ) (s rest : String)
    → includes_code mark s ≡ false
    → behind mark (s <> rest) ≡ behind mark rest
unfolding behind includes_code
behind-skip mark String.[] rest a = rw (nil-append) refl
behind-skip mark (String.◌∷◌ c s) rest a =
    rw (cons-append c s rest) (ground (arith, behind-skip mark s rest))

Avoids-append : (mark : ℕ) (s t : String) → Avoids mark s → Avoids mark t → Avoids mark (s <> t)
Avoids-append mark String.[] t a b = rw (nil-append) b
Avoids-append mark (String.◌∷◌ c s) t (n, a) b =
    rw (cons-append c s t) (n, Avoids-append mark s t a b)

-- A mark of one character in front of a text.
pub put_mark : (m : Char) (rest : String) → String.◌∷◌ m "" <> rest ≡ String.◌∷◌ m rest
put_mark m rest = cons-append m "" rest ∙ ap (String.◌∷◌ m) (nil-append rest)

form-Avoids : (s : String) (mark : ℕ) → is_mark mark ≡ true → Avoids mark (encode form s)
form-Avoids = encode-Avoids form form-marks

pair_text-Avoids : (name value : String) → Avoids b'&' (pair_text (name, value))
unfolding pair_text
pair_text-Avoids name value =
    Avoids-append b'&' (encode form name) ("=" <> encode form value)
      (form-Avoids name b'&' (unfold is_mark in refl))
      (rw (put_mark "=" (encode form value))
        ((λ e. absurd (omega (arith, e))), form-Avoids value b'&' (unfold is_mark in refl)))

read_pair :
    (name value : String)
    → (before b'=' (pair_text (name, value)) ≡ encode form name)
      × (behind b'=' (pair_text (name, value)) ≡ encode form value)
unfolding pair_text
read_pair name value = rw (put_mark "=" (encode form value)) (
    before-append "=" (encode form name) (encode form value)
      (form-Avoids name b'=' (unfold is_mark in refl)))

truthy-put : (s rest : String) (m : Char) → truthy (s <> String.◌∷◌ m rest) ≡ true
truthy-put String.[] rest m = rw (nil-append) refl
truthy-put (String.◌∷◌ c s) rest m = rw (cons-append c s (String.◌∷◌ m rest)) refl

truthy-pair_text : (pair : String × String) → truthy (pair_text pair) ≡ true
unfolding pair_text
truthy-pair_text (name, value) =
    rw (put_mark "=" (encode form value)) (truthy-put (encode form name) (encode form value) "=")

abbrev pub pair_bytes : String × String → List ℕ × List ℕ
pair_bytes (name, value) = (bytes_of name, bytes_of value)

decode-form : (s : String) → decode true (encode form s) ≡ bytes_of s
decode-form = decode-encode form form-IsSound

read_pair-bytes : (pair : String × String) → read_part (pair_text pair) ≡ pair_bytes pair
read_pair-bytes (name, value) =
    rw (read_pair name value).0
      (rw (read_pair name value).1 (rw (decode-form name) (rw (decode-form value) refl)))

parts-serialise :
    (pair : String × String) (pairs : List (String × String))
    → parts b'&' (serialise (pair ∷ pairs)) ≡ map pair_text (pair ∷ pairs)
unfolding serialise
parts-serialise (name, value) [] =
    parts-Avoids b'&' (pair_text (name, value)) (pair_text-Avoids name value)
parts-serialise (name, value) (next ∷ pairs) = rw (put_mark "&" (serialise (next ∷ pairs))) (
    parts-append "&" (pair_text (name, value)) (serialise (next ∷ pairs))
      (pair_text-Avoids name value)
    ∙ ap (λ (l : List String). pair_text (name, value) ∷ l) (parts-serialise next pairs))

read_all :
    (pairs : List (String × String))
    → map read_part (filter truthy (map pair_text pairs)) ≡ map pair_bytes pairs
read_all [] = refl
read_all (pair ∷ pairs) =
    rw (truthy-pair_text pair) (ground (arith, read_all pairs, read_pair-bytes pair))

-- A server that splits a query at `&` and at the first `=`, passes over empty parts, and decodes
-- what it finds, reads exactly the parameters that the page put into it, in their order and as
-- the bytes of their texts, whatever characters they have.
pub parse_query-serialise :
    (pairs : List (String × String)) → parse_query (serialise pairs) ≡ map pair_bytes pairs
unfolding parse_query
parse_query-serialise [] = unfold serialise parts in refl
parse_query-serialise (pair ∷ pairs) =
    ap (λ (l : List String). map read_part (filter truthy l)) (parts-serialise pair pairs)
    ∙ read_all (pair ∷ pairs)
