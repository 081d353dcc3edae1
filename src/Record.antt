-- ===== src/Record.antt =====
-- A JavaScript object with string keys, as the pages build it: an association list in which the
-- assignment of an existing key keeps its place. `__proto__` is no key of its own: the assignment
-- of a string to it does nothing. A read sees the own keys only, not what an object inherits.
use mcpxy.Prelude.{
  String, Option, none, some, List, [], ◌∷◌, ◌==◌, eq_iff, ◌≡◌, ◌≢◌, refl, arith, if◌then◌else◌,
}

module _ {ℓ} {V : Type ℓ} where
  unfoldable pub insert : String → V → List (String × V) → List (String × V)
  insert key new [] = (key, new) ∷ []
  insert key new ((held, old) ∷ rest) =
      let others = insert key new rest in
      if held == key then (held, new) ∷ rest else (held, old) ∷ others

  -- `out[k] = value`
  unfoldable pub assign : String → V → List (String × V) → List (String × V)
  unfolding insert
  assign k v m = if k == "__proto__" then m else insert k v m

  -- `delete out[k]`
  unfoldable pub remove : String → List (String × V) → List (String × V)
  remove k [] = []
  remove k ((j, v) ∷ m) = if j == k then m else (j, v) ∷ remove k m

  -- `out[k]`; nothing stands under a missing key.
  unfoldable pub lookup : String → List (String × V) → Option V
  lookup key [] = none
  lookup key ((held, value) ∷ rest) = if held == key then some value else lookup key rest

  pub lookup-insert :
      (key other : String) (new : V) (entries : List (String × V))
      → lookup other (insert key new entries)
        ≡ (if key == other then some new else lookup other entries)
  unfolding insert lookup
  lookup-insert key other new [] = refl
  lookup-insert key other new ((held, old) ∷ rest) = ground (
    arith,
    lookup-insert key other new rest,
    eq_iff held key,
    eq_iff held other,
    eq_iff key other,
  )

  -- Each key stands in the object once.
  abbrev pub IsFresh : String → List (String × V) → Type 0
  IsFresh k [] = Unit
  IsFresh k ((j, v) ∷ m) = (j ≢ k) × IsFresh k m

  abbrev pub HasDistinctKeys : List (String × V) → Type 0
  HasDistinctKeys [] = Unit
  HasDistinctKeys ((k, v) ∷ m) = IsFresh k m × HasDistinctKeys m

  IsFresh-insert :
      (i k : String) (v : V) (m : List (String × V))
      → k ≢ i
      → IsFresh i m
      → IsFresh i (insert k v m)
  unfolding insert
  IsFresh-insert i k v [] n f = (n, tt)
  IsFresh-insert i k v ((j, w) ∷ m) n (f, fs) =
      ground (arith, eq_iff j k, IsFresh-insert i k v m n fs)

  pub HasDistinctKeys-insert :
      (k : String) (v : V) (m : List (String × V))
      → HasDistinctKeys m
      → HasDistinctKeys (insert k v m)
  unfolding insert
  HasDistinctKeys-insert k v [] h = (tt, tt)
  HasDistinctKeys-insert k v ((j, w) ∷ m) (f, h) =
      ground (arith, eq_iff j k, HasDistinctKeys-insert k v m h, IsFresh-insert j k v m)

  IsFresh-remove : (i k : String) (m : List (String × V)) → IsFresh i m → IsFresh i (remove k m)
  unfolding remove
  IsFresh-remove i k [] f = tt
  IsFresh-remove i k ((j, v) ∷ m) (f, fs) = ground (arith, IsFresh-remove i k m fs)

  pub HasDistinctKeys-remove :
      (k : String) (m : List (String × V)) → HasDistinctKeys m → HasDistinctKeys (remove k m)
  unfolding remove
  HasDistinctKeys-remove k [] h = tt
  HasDistinctKeys-remove k ((j, v) ∷ m) (f, h) =
      ground (arith, HasDistinctKeys-remove k m h, IsFresh-remove j k m f)

  lookup-IsFresh : (k : String) (m : List (String × V)) → IsFresh k m → lookup k m ≡ none
  unfolding lookup
  lookup-IsFresh k [] f = refl
  lookup-IsFresh k ((j, v) ∷ m) (f, fs) = ground (arith, eq_iff j k, lookup-IsFresh k m fs)

  pub lookup-remove :
      (k i : String) (m : List (String × V))
      → HasDistinctKeys m
      → lookup i (remove k m) ≡ (if k == i then none else lookup i m)
  unfolding lookup remove
  lookup-remove k i [] h = ground arith
  lookup-remove k i ((j, v) ∷ m) (f, h) =
      ground
        (arith, lookup-remove k i m h, lookup-IsFresh j m f, eq_iff j k, eq_iff j i, eq_iff k i)
