-- ===== src/Manual/KeyValues.antt =====
-- The rows of `KeyValueEditor` and `kvToRecord` of AddManuallyDialog.tsx.
use mcpxy.Prelude.{
  String, Option, none, some, List, [], ◌∷◌, ◌==◌, ◌||◌, eq_iff, ◌≡◌, ◌≢◌, refl, ap, ◌∙◌, arith,
  truthy, truthy-cases, trim, if◌then◌else◌, inl, inr, ◌⊎◌, Bool-cases,
}
use mcpxy.Record.{lookup, assign, lookup-insert, HasDistinctKeys, HasDistinctKeys-insert}

pub record KeyValue : Type 0 where
  pub key : String
  pub value : String

unfoldable pub empty_kv : KeyValue
empty_kv = record { key = ""; value = "" }

-- The loop of `kvToRecord`.
unfoldable pub kv_to_record_from : List (String × String) → List KeyValue → List (String × String)
unfolding assign
kv_to_record_from out [] = out
kv_to_record_from out (item ∷ items) =
    let k = trim item.key in
    kv_to_record_from (if truthy k then assign k item.value out else out) items

unfoldable pub kv_to_record : List KeyValue → List (String × String)
unfolding kv_to_record_from
kv_to_record items = kv_to_record_from [] items

-- The last row whose trimmed key is `k` decides.
abbrev pub last_value : String → List KeyValue → Option String → Option String
last_value k [] found = found
last_value k (item ∷ items) found =
    last_value k items (if trim item.key == k then some item.value else found)

lookup-assign_if :
    (t k v : String) (out : List (String × String))
    → k ≢ ""
    → k ≢ "__proto__"
    → lookup k (if truthy t then assign t v out else out)
      ≡ (if t == k then some v else lookup k out)
unfolding assign
lookup-assign_if t k v out n p = elim (truthy-cases t) [
  | inl (filled, t_ne) ↦ elim (Bool-cases (t == "__proto__")) [
    | inl proto ↦ rw (filled, proto) (ground (arith, eq_iff t "__proto__", eq_iff t k))
    | inr own ↦ rw (filled, own) (lookup-insert t k v out)
  ]
  | inr (empty, t_eq) ↦ rw empty (ground (arith, eq_iff t k))
]

lookup-kv_to_record_from :
    (k : String) (out : List (String × String)) (items : List KeyValue)
    → k ≢ ""
    → k ≢ "__proto__"
    → lookup k (kv_to_record_from out items) ≡ last_value k items (lookup k out)
unfolding kv_to_record_from
lookup-kv_to_record_from k out [] n p = refl
lookup-kv_to_record_from k out (item ∷ items) n p =
    lookup-kv_to_record_from k (if truthy t then assign t item.value out else out) items n p
    ∙ ap (last_value k items) (lookup-assign_if t k item.value out n p)
  where
    t : String
    t = trim item.key

lookup-assign_if_reserved :
    (t k v : String) (out : List (String × String))
    → (k ≡ "") ⊎ (k ≡ "__proto__")
    → lookup k (if truthy t then assign t v out else out) ≡ lookup k out
unfolding assign
lookup-assign_if_reserved t k v out h = elim (truthy-cases t) [
  | inl (filled, t_ne) ↦ elim (Bool-cases (t == "__proto__")) [
    | inl proto ↦ rw (filled, proto) refl
    | inr own ↦
        rw (filled, own) (ground (arith, lookup-insert t k v out, eq_iff t "__proto__", eq_iff t k))
  ]
  | inr (empty, t_eq) ↦ rw empty refl
]

lookup-reserved :
    (k : String) (out : List (String × String)) (items : List KeyValue)
    → (k ≡ "") ⊎ (k ≡ "__proto__")
    → lookup k (kv_to_record_from out items) ≡ lookup k out
unfolding kv_to_record_from
lookup-reserved k out [] h = refl
lookup-reserved k out (item ∷ items) h =
    lookup-reserved k (if truthy t then assign t item.value out else out) items h
    ∙ lookup-assign_if_reserved t k item.value out h
  where
    t : String
    t = trim item.key

HasDistinctKeys-from :
    (out : List (String × String)) (items : List KeyValue)
    → HasDistinctKeys out
    → HasDistinctKeys (kv_to_record_from out items)
unfolding kv_to_record_from assign
HasDistinctKeys-from out [] h = h
HasDistinctKeys-from out (item ∷ items) h =
    HasDistinctKeys-from
      (if truthy (trim item.key) then assign (trim item.key) item.value out else out) items
      (ground (arith, HasDistinctKeys-insert (trim item.key) item.value out h))

-- `kvToRecord` maps a key to the value of the last row whose trimmed key it is, and to nothing if
-- there is none; the empty key and `__proto__` are never among its keys.
pub lookup-kv_to_record :
    (k : String) (items : List KeyValue)
    → lookup k (kv_to_record items)
      ≡ (if (k == "") || (k == "__proto__") then none else last_value k items none)
unfolding kv_to_record lookup
lookup-kv_to_record k items = elim (Bool-cases (k == "")) [
  | inl e ↦ rw e (lookup-reserved k [] items (inl ((eq_iff k "").0 e)))
  | inr n ↦ elim (Bool-cases (k == "__proto__")) [
    | inl e ↦ rw (n, e) (lookup-reserved k [] items (inr ((eq_iff k "__proto__").0 e)))
    | inr p ↦
        rw (n, p)
          (lookup-kv_to_record_from k [] items (ground (arith, eq_iff k ""))
            (ground (arith, eq_iff k "__proto__")))
  ]
]

-- No key stands twice in what `kvToRecord` builds.
pub kv_to_record-HasDistinctKeys : (items : List KeyValue) → HasDistinctKeys (kv_to_record items)
unfolding kv_to_record
kv_to_record-HasDistinctKeys items = HasDistinctKeys-from [] items tt
