-- ===== src/Names/Ranks.antt =====
-- The sorted names: ascending, and each behind as many as are smaller.
use mcpxy.Prelude.{
  ℕ, suc, String, true, false, List, [], ◌∷◌, ◌≡◌, ◌≢◌, ◌+◌, ◌⊎◌, inl, inr, refl, ap, ◌∙◌, arith,
  All, length, Bool-cases, if◌then◌else◌,
}
use mcpxy.Names.{name_le, insert_sorted, sort}
use mcpxy.Names.Order.{name_le_antisymm, name_le_total, name_le_trans}

-- How many names come before a name.
unfoldable pub rank : String → List String → ℕ
rank name [] = 0
rank name (held ∷ names) = (if name_le name held then 0 else 1) + rank name names

abbrev pub IsBehind : String → List String → Type 0
IsBehind name = All (λ held. name_le held name ≡ false)

abbrev pub IsAscending : List String → Type 0
IsAscending [] = Unit
IsAscending (name ∷ names) = IsBehind name names × IsAscending names

abbrev pub IsIn : String → List String → Type 0
IsIn name [] = ⊥
IsIn name (held ∷ names) = (held ≡ name) ⊎ IsIn name names

abbrev pub IsDistinct : List String → Type 0
IsDistinct [] = Unit
IsDistinct (name ∷ names) = All (λ held. held ≢ name) names × IsDistinct names

pub name_le_refl : (s : String) → name_le s s ≡ true
name_le_refl s = ground (arith, name_le_total s s)

rank-insert_sorted :
    (name s : String) (names : List String)
    → rank name (insert_sorted s names) ≡ rank name (s ∷ names)
unfolding rank insert_sorted
rank-insert_sorted name s [] = refl
rank-insert_sorted name s (held ∷ names) = ground (arith, rank-insert_sorted name s names)

pub rank-sort : (name : String) (names : List String) → rank name (sort names) ≡ rank name names
unfolding sort rank
rank-sort name [] = refl
rank-sort name (s ∷ names) =
    rank-insert_sorted name s (sort names)
    ∙ ap (λ k. (if name_le name s then 0 else 1) + k) (rank-sort name names)

All-insert_sorted :
    (P : String → Type 0) (s : String) (names : List String)
    → P s
    → All P names
    → All P (insert_sorted s names)
unfolding insert_sorted
All-insert_sorted P s [] h hs = (h, tt)
All-insert_sorted P s (held ∷ names) h (k, ks) = elim (Bool-cases (name_le s held)) [
  | inl e ↦ rw (e, insert_sorted) (h, (k, ks))
  | inr e ↦ rw (e, insert_sorted) (k, All-insert_sorted P s names h ks)
]

pub All-sort : (P : String → Type 0) (names : List String) → All P names → All P (sort names)
unfolding sort
All-sort P [] h = tt
All-sort P (s ∷ names) (h, hs) = All-insert_sorted P s (sort names) h (All-sort P names hs)

-- What is behind a name is behind each name before it.
IsBehind-before :
    (s held : String) (names : List String)
    → name_le s held ≡ true
    → IsBehind held names
    → IsBehind s names
IsBehind-before s held [] e b = tt
IsBehind-before s held (m ∷ names) e (b, bs) =
    (ground (arith, name_le_trans m s held), IsBehind-before s held names e bs)

insert_sorted-IsAscending :
    (s : String) (names : List String)
    → All (λ held. held ≢ s) names
    → IsAscending names
    → IsAscending (insert_sorted s names)
unfolding insert_sorted
insert_sorted-IsAscending s [] d a = (tt, tt)
insert_sorted-IsAscending s (held ∷ names) (d, ds) (b, bs) = elim (Bool-cases (name_le s held)) [
  | inl e ↦
      let first : name_le held s ≡ false = elim (Bool-cases (name_le held s)) [
        | inl k ↦ absurd (d (name_le_antisymm held s k e))
        | inr k ↦ k
      ] in
      rw (e, insert_sorted) ((first, IsBehind-before s held names e b), (b, bs))
  | inr e ↦
      rw (e, insert_sorted)
        (
          All-insert_sorted (λ m. name_le m held ≡ false) s names e b,
          insert_sorted-IsAscending s names ds bs,
        )
]

pub sort-IsAscending : (names : List String) → IsDistinct names → IsAscending (sort names)
unfolding sort
sort-IsAscending [] d = tt
sort-IsAscending (s ∷ names) (d, ds) =
    insert_sorted-IsAscending s (sort names) (All-sort (λ held. held ≢ s) names d)
      (sort-IsAscending names ds)

pub rank-IsBehind :
    (name : String) (names : List String) → IsBehind name names → rank name names ≡ 0
unfolding rank
rank-IsBehind name [] b = refl
rank-IsBehind name (m ∷ names) (b, bs) =
    ground (arith, name_le_total m name, rank-IsBehind name names bs)

pub IsBehind-IsIn :
    (s name : String) (names : List String)
    → IsBehind s names
    → IsIn name names
    → name_le name s ≡ false
IsBehind-IsIn s name [] b m = absurd m
IsBehind-IsIn s name (held ∷ names) (b, bs) (inl e) = rw (← e) b
IsBehind-IsIn s name (held ∷ names) (b, bs) (inr m) = IsBehind-IsIn s name names bs m

length-insert_sorted :
    (s : String) (names : List String) → length (insert_sorted s names) ≡ suc (length names)
unfolding insert_sorted
length-insert_sorted s [] = refl
length-insert_sorted s (held ∷ names) = ground (arith, length-insert_sorted s names)

pub length-sort : (names : List String) → length (sort names) ≡ length names
unfolding sort
length-sort [] = refl
length-sort (s ∷ names) = length-insert_sorted s (sort names) ∙ ap suc (length-sort names)

IsIn-insert_sorted :
    (s name : String) (names : List String)
    → IsIn name (s ∷ names)
    → IsIn name (insert_sorted s names)
unfolding insert_sorted
IsIn-insert_sorted s name [] m = m
IsIn-insert_sorted s name (held ∷ names) m = elim (Bool-cases (name_le s held)) [
  | inl e ↦ rw (e, insert_sorted) m
  | inr e ↦
      rw (e, insert_sorted)
        (elim m [
          | inl same ↦ inr (IsIn-insert_sorted s name names (inl same))
          | inr (inl same) ↦ inl same
          | inr (inr later) ↦ inr (IsIn-insert_sorted s name names (inr later))
        ])
]

pub IsIn-sort : (name : String) (names : List String) → IsIn name names → IsIn name (sort names)
unfolding sort
IsIn-sort name [] m = m
IsIn-sort name (s ∷ names) (inl e) = IsIn-insert_sorted s name (sort names) (inl e)
IsIn-sort name (s ∷ names) (inr m) =
    IsIn-insert_sorted s name (sort names) (inr (IsIn-sort name names m))
