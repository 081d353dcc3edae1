-- ===== src/Manual/Editor.antt =====
-- `KeyValueEditor` of AddManuallyDialog.tsx: its three edits of the rows.
use mcpxy.Prelude.{
  ℕ, zero, suc, ◌≤◌, String, Option, none, some, List, [], ◌∷◌, ◌++◌, ◌≡◌, refl, arith, length,
  length-append, foldl, get_elem?, nat_eq, if◌then◌else◌,
}
use mcpxy.Manual.KeyValues.{KeyValue, empty_kv}

-- `Partial<KeyValue>` with the one field that an input changes.
pub data Patch : Type 0 where
  key_patch value_patch : String → Patch

abbrev pub apply_patch : Patch → KeyValue → KeyValue
apply_patch (key_patch k) it = record it { key = k }
apply_patch (value_patch v) it = record it { value = v }

-- `items.map((it, i) => i === idx ? { ...it, ...patch } : it)`
unfoldable pub update : ℕ → Patch → List KeyValue → List KeyValue
update idx patch [] = []
update zero patch (it ∷ items) = apply_patch patch it ∷ items
update (suc idx) patch (it ∷ items) = it ∷ update idx patch items

-- `items.filter((_, i) => i !== idx)`
unfoldable pub without : ℕ → List KeyValue → List KeyValue
without idx [] = []
without zero (it ∷ items) = items
without (suc idx) (it ∷ items) = it ∷ without idx items

abbrev or_empty_row : List KeyValue → List KeyValue
or_empty_row [] = empty_kv ∷ []
or_empty_row (it ∷ items) = it ∷ items

unfoldable pub remove : ℕ → List KeyValue → List KeyValue
unfolding without
remove idx items = or_empty_row (without idx items)

unfoldable pub add : List KeyValue → List KeyValue
add items = items ++ empty_kv ∷ []

pub data Edit : Type 0 where
  updated : ℕ → Patch → Edit
  removed : ℕ → Edit
  added : Edit

pub edit : List KeyValue → Edit → List KeyValue
edit items (updated idx patch) = update idx patch items
edit items (removed idx) = remove idx items
edit items added = add items

length-update :
    (idx : ℕ) (patch : Patch) (items : List KeyValue)
    → length (update idx patch items) ≡ length items
unfolding update
length-update idx patch [] = refl
length-update zero patch (it ∷ items) = refl
length-update (suc idx) patch (it ∷ items) = omega (arith, length-update idx patch items)

length-or_empty_row : (items : List KeyValue) → 1 ≤ length (or_empty_row items)
length-or_empty_row [] = omega arith
length-or_empty_row (it ∷ items) = omega arith

length-edit : (items : List KeyValue) (e : Edit) → 1 ≤ length items → 1 ≤ length (edit items e)
unfolding edit remove add
length-edit items (updated idx patch) h = omega (arith, length-update idx patch items)
length-edit items (removed idx) h = length-or_empty_row (without idx items)
length-edit items added h = omega (arith, length-append items (empty_kv ∷ []))

-- The editor never shows an empty table: whatever is edited, at least one row is left of a table
-- that has one.
pub edits-nonempty :
    (items : List KeyValue) (edits : List Edit)
    → 1 ≤ length items
    → 1 ≤ length (foldl edit items edits)
edits-nonempty items [] h = h
edits-nonempty items (e ∷ edits) h = edits-nonempty (edit items e) edits (length-edit items e h)

abbrev map_option : (KeyValue → KeyValue) → Option KeyValue → Option KeyValue
map_option f none = none
map_option f (some it) = some (f it)

get_elem?-update-at :
    (idx j : ℕ) (patch : Patch) (items : List KeyValue)
    → get_elem? (update idx patch items) j ≡ (
        if nat_eq j idx
        then map_option (apply_patch patch) (get_elem? items j)
        else get_elem? items j)
unfolding update
get_elem?-update-at idx j patch [] = ground arith
get_elem?-update-at zero zero patch (it ∷ items) = ground arith
get_elem?-update-at zero (suc j) patch (it ∷ items) = ground arith
get_elem?-update-at (suc idx) zero patch (it ∷ items) = ground arith
get_elem?-update-at (suc idx) (suc j) patch (it ∷ items) =
    ground (arith, get_elem?-update-at idx j patch items)

-- An update changes one field of one row and no other row; it adds and removes none.
pub get_elem?-update :
    (idx j : ℕ) (patch : Patch) (items : List KeyValue)
    → (get_elem? (update idx patch items) j ≡ (
        if nat_eq j idx
        then map_option (apply_patch patch) (get_elem? items j)
        else get_elem? items j))
      × (length (update idx patch items) ≡ length items)
get_elem?-update idx j patch items =
    (get_elem?-update-at idx j patch items, length-update idx patch items)
