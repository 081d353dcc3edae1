-- ===== src/Api/Entries.antt =====
-- `Object.entries` of a parsed object, as Config.tsx and Overview.tsx list the upstreams. A repeated
-- key keeps its first place and has the last value; no key is the text of an array index, which the
-- browser would list first.
use mcpxy.Prelude.{String, Option, none, some, List, [], ◌≡◌, refl, arith}
use mcpxy.Api.Json.{Json, Fields, end, field, field_of}
use mcpxy.Record.{insert, lookup, lookup-insert, HasDistinctKeys, HasDistinctKeys-insert}

unfoldable pub entries_from : Fields → List (String × Json) → List (String × Json)
entries_from end known = known
entries_from (field key v rest) known = entries_from rest (insert key v known)

unfoldable pub entries_of : Fields → List (String × Json)
unfolding entries_from
entries_of fields = entries_from fields []

-- The second value where there is no first.
abbrev first_of : Option Json → Option Json → Option Json
first_of none other = other
first_of (some v) other = some v

lookup-entries_from :
    (fields : Fields) (known : List (String × Json)) (key : String)
    → lookup key (entries_from fields known) ≡ first_of (field_of fields key) (lookup key known)
unfolding entries_from field_of
lookup-entries_from end known key = refl
lookup-entries_from (field held v rest) known key =
    ground
      (arith, lookup-entries_from rest (insert held v known) key, lookup-insert held key v known)

-- An entry of a parsed object is the value that its key has in it.
pub lookup-entries_of :
    (fields : Fields) (key : String) → lookup key (entries_of fields) ≡ field_of fields key
unfolding entries_of lookup
lookup-entries_of fields key = absorb (field_of fields key) (lookup-entries_from fields [] key)
  where
    absorb : {o : Option Json} (w : Option Json) → o ≡ first_of w none → o ≡ w
    absorb none e = e
    absorb (some v) e = e

entries_from-HasDistinctKeys :
    (fields : Fields) (known : List (String × Json))
    → HasDistinctKeys known
    → HasDistinctKeys (entries_from fields known)
unfolding entries_from
entries_from-HasDistinctKeys end known d = d
entries_from-HasDistinctKeys (field key v rest) known d =
    entries_from-HasDistinctKeys rest (insert key v known) (HasDistinctKeys-insert key v known d)

-- No key stands twice among the entries.
pub entries_of-HasDistinctKeys : (fields : Fields) → HasDistinctKeys (entries_of fields)
unfolding entries_of
entries_of-HasDistinctKeys fields = entries_from-HasDistinctKeys fields [] tt
