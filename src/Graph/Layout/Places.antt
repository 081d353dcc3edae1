-- ===== src/Graph/Layout/Places.antt =====
-- Which point of the ring each name has.
use mcpxy.Prelude.{
  ℕ, none, suc, String, true, false, some, List, [], ◌∷◌, ◌≡◌, ◌≢◌, ◌+◌, inl, inr, refl, ap, ◌∙◌,
  arith, All, length, any, eq_refl, Bool-cases, eq_iff, ◌==◌, if◌then◌else◌,
}
use mcpxy.Record.{lookup, insert, lookup-insert, IsFresh, HasDistinctKeys}
use mcpxy.Names.{sort}
use mcpxy.Graph.Layout.{RouteInfo, names_of, compute_layout, proxy_id, place_all}
use mcpxy.Names.Ranks.{
  rank, IsBehind, IsAscending, IsIn, IsDistinct, name_le_refl, rank-sort, All-sort,
  sort-IsAscending, rank-IsBehind, IsBehind-IsIn, length-sort, IsIn-sort,
}

IsDistinct-names_of :
    (routes : List (String × RouteInfo)) → HasDistinctKeys routes → IsDistinct (names_of routes)
IsDistinct-names_of [] h = tt
IsDistinct-names_of ((name, info) ∷ routes) (f, h) = (fresh routes f, IsDistinct-names_of routes h)
  where
    fresh :
        (rs : List (String × RouteInfo)) → IsFresh name rs → All (λ held. held ≢ name) (names_of rs)
    fresh [] f = tt
    fresh ((held, i) ∷ rs) (f, fs) = (f, fresh rs fs)

All-IsIn :
    (P : String → Type 0) (names : List String)
    → ((name : String) → IsIn name names → P name)
    → All P names
All-IsIn P [] h = tt
All-IsIn P (name ∷ names) h = (h name (inl refl), All-IsIn P names (λ other m. h other (inr m)))

IsBehind-distinct :
    (s : String) (names : List String) → IsBehind s names → All (λ held. held ≢ s) names
IsBehind-distinct s [] b = tt
IsBehind-distinct s (m ∷ names) (b, bs) =
    (ground (arith, name_le_refl s), IsBehind-distinct s names bs)

rank-first : (s : String) (names : List String) → IsBehind s names → rank s (s ∷ names) ≡ 0
unfolding rank
rank-first s names b = ground (arith, name_le_refl s, rank-IsBehind s names b)

rank-later :
    (s name : String) (names : List String)
    → IsBehind s names
    → IsIn name names
    → rank name (s ∷ names) ≡ suc (rank name names)
unfolding rank
rank-later s name names b m = ground (arith, IsBehind-IsIn s name names b m)

pub absent :
    (name : String) (names : List String)
    → any (λ held. held == name) names ≡ false
    → All (λ held. held ≢ name) names
absent name [] h = tt
absent name (m ∷ names) h = (ground (arith, eq_iff m name), absent name names (ground arith))

pub present :
    (name : String) (names : List String)
    → any (λ held. held == name) names ≡ true
    → IsIn name names
present name [] h = cc
present name (m ∷ names) h = elim (Bool-cases (m == name)) [
  | inl e ↦ inl ((eq_iff m name).0 e)
  | inr e ↦ inr (present name names (ground arith))
]

module _ {Point : Type 0} (center : Point) (ring : (n index : ℕ) → Point) where
  lookup-place_all_other :
      (n index : ℕ) (name : String) (names : List String) (positions : List (String × Point))
      → All (λ held. held ≢ name) names
      → lookup name (place_all center ring n index names positions) ≡ lookup name positions
  unfolding place_all
  lookup-place_all_other n index name [] positions d = refl
  lookup-place_all_other n index name (m ∷ names) positions (d, ds) =
      lookup-place_all_other n (suc index) name names (insert m (ring n index) positions) ds
      ∙ ground (arith, lookup-insert m name (ring n index) positions, eq_iff m name)

  lookup-place_all :
      (n index : ℕ) (name : String) (names : List String) (positions : List (String × Point))
      → IsAscending names
      → IsIn name names
      → lookup name (place_all center ring n index names positions)
        ≡ some (ring n (index + rank name names))
  unfolding place_all
  lookup-place_all n index name [] positions a m = absurd m
  lookup-place_all n index name (held ∷ names) positions (b, bs) (inl e) =
      rw (← e, rank-first held names b)
        (lookup-place_all_other n (suc index) held names (insert held (ring n index) positions)
            (IsBehind-distinct held names b)
          ∙ ground (arith, lookup-insert held held (ring n index) positions, eq_refl held))
  lookup-place_all n index name (held ∷ names) positions (b, bs) (inr m) =
      lookup-place_all n (suc index) name names (insert held (ring n index) positions) bs m
      ∙ ap (λ k. some (ring n k)) (omega (arith, rank-later held name names b m))

  lookup-proxy :
      (routes : List (String × RouteInfo))
      → All (λ held. held ≢ proxy_id) (names_of routes)
      → lookup proxy_id (compute_layout center ring routes) ≡ some center
  unfolding compute_layout lookup
  lookup-proxy routes d =
      let names = names_of routes in
      lookup-place_all_other (length (sort names)) 0 proxy_id (sort names) ((proxy_id, center) ∷ [])
        (All-sort (λ held. held ≢ proxy_id) names d)

  pub lookup-absent :
      (routes : List (String × RouteInfo)) (name : String)
      → All (λ held. held ≢ name) (names_of routes)
      → name ≢ proxy_id
      → lookup name (compute_layout center ring routes) ≡ none
  unfolding compute_layout lookup
  lookup-absent routes name d n =
      let names = names_of routes in
      lookup-place_all_other (length (sort names)) 0 name (sort names) ((proxy_id, center) ∷ [])
        (All-sort (λ held. held ≢ name) names d)
      ∙ ground (arith, eq_iff proxy_id name)

  pub lookup-compute_layout :
      (routes : List (String × RouteInfo)) (name : String)
      → HasDistinctKeys routes
      → IsIn name (names_of routes)
      → lookup name (compute_layout center ring routes)
        ≡ some (ring (length (names_of routes)) (rank name (names_of routes)))
  unfolding compute_layout
  lookup-compute_layout routes name h m =
      let names = names_of routes in
      rw (← rank-sort name names, length-sort names)
        (lookup-place_all (length names) 0 name (sort names) ((proxy_id, center) ∷ [])
            (sort-IsAscending names (IsDistinct-names_of routes h)) (IsIn-sort name names m)
          ∙ ap (λ k. some (ring (length names) k)) (omega arith))

  -- Of `n` routes each has the point of the ring whose index is the number of routes with a smaller
  -- name by code units, wherever it stands among the routes; the proxy is at the centre, unless a
  -- route has its id: then the proxy has the point of that route.
  pub layout_places :
      (routes : List (String × RouteInfo))
      → HasDistinctKeys routes
      → let names = names_of routes in
        let layout = compute_layout center ring routes in
        All (λ name. lookup name layout ≡ some (ring (length names) (rank name names))) names
        × (lookup proxy_id layout
            ≡ some (
                if any (λ name. name == proxy_id) names
                then ring (length names) (rank proxy_id names)
                else center))
  layout_places routes h = (
    All-IsIn _ (names_of routes) (λ name m. lookup-compute_layout routes name h m),
    elim (Bool-cases (any (λ name. name == proxy_id) (names_of routes))) [
      | inl e ↦
          rw e (lookup-compute_layout routes proxy_id h (present proxy_id (names_of routes) e))
      | inr e ↦ rw e (lookup-proxy routes (absent proxy_id (names_of routes) e))
    ],
  )
