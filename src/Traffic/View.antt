-- ===== src/Traffic/View.antt =====
-- What Traffic.tsx shows besides the rows: the choices of the filters and the title.
use mcpxy.Prelude.{
  String, Bool, true, false, Option, none, some, List, [], ◌∷◌, ◌++◌, ◌≡◌, ◌≢◌, inl, inr, refl, ap,
  ◌∙◌, arith, All, any, length, show, ◌<>◌, ◌==◌, ◌||◌, eq_iff, subst, truthy, Bool-cases,
  if◌then◌else◌,
}
use mcpxy.Names.{sort, insert_sorted}
use mcpxy.Names.Ranks.{IsAscending, IsDistinct, sort-IsAscending}
use mcpxy.Api.Types.{TrafficRecord}
use mcpxy.Api.Json.{Json}
use mcpxy.Api.Sse.{record_of}
use mcpxy.Traffic.{Page, matches, filtered, handle, clear_clicked, streamed}

-- `new Set(records.map(…))`, in the order of the first occurrences.
unfoldable pub set_of : List String → List TrafficRecord → List String
set_of names [] = names
set_of names (r ∷ records) =
    let rest =
      set_of (if any (λ n. n == r.upstream) names then names else names ++ r.upstream ∷ [])
        records in
    rest

unfoldable pub unique_upstreams : Page → List String
unfolding set_of
unique_upstreams p = sort (set_of [] p.records)

-- What the select of the upstreams shows: the option of the filter, or the first one, which is
-- "All upstreams", where no option has its value.
unfoldable pub shown_upstream : Page → String
unfolding unique_upstreams
shown_upstream p =
    if any (λ n. n == p.upstream_filter) (unique_upstreams p) then p.upstream_filter else ""

unfoldable pub title_of : Page → String
title_of p = show (length (filtered p)) <> " events"

unfoldable pub empty_text : Page → Option String
empty_text p = elim (filtered p) [
  | [] ↦ some (if p.paused then "Paused." else "Waiting for requests…")
  | _ ↦ none
]

any-insert_sorted :
    (p : String → Bool) (s : String) (names : List String)
    → any p (insert_sorted s names) ≡ p s || any p names
unfolding insert_sorted
any-insert_sorted p s [] = refl
any-insert_sorted p s (held ∷ names) = ground (arith, any-insert_sorted p s names)

any-sort : (p : String → Bool) (names : List String) → any p (sort names) ≡ any p names
unfolding sort
any-sort p [] = refl
any-sort p (s ∷ names) = any-insert_sorted p s (sort names) ∙ ap (λ b. p s || b) (any-sort p names)

any-snoc :
    (p : String → Bool) (names : List String) (s : String)
    → any p (names ++ s ∷ []) ≡ any p names || p s
any-snoc p [] s = ground arith
any-snoc p (n ∷ names) s = ground (arith, any-snoc p names s)

held_already :
    (u name : String) (names : List String) (others : Bool)
    → any (λ n. n == u) names ≡ true
    → any (λ n. n == name) names || others ≡ any (λ n. n == name) names || (u == name || others)
held_already u name names others held = elim (Bool-cases (u == name)) [
  | inl same ↦
      let e = (eq_iff u name).0 same in
      let there : any (λ n. n == name) names ≡ true =
        subst (λ v. any (λ n. n == v) names ≡ true) e held in
      ground arith
  | inr other ↦ ground arith
]

any-set_of :
    (name : String) (names : List String) (records : List TrafficRecord)
    → any (λ n. n == name) (set_of names records)
      ≡ any (λ n. n == name) names || any (λ r. r.upstream == name) records
unfolding set_of
any-set_of name names [] = ground arith
any-set_of name names (r ∷ records) = elim (Bool-cases (any (λ n. n == r.upstream) names)) [
  | inl held ↦ rw held (any-set_of name names records ∙ held_already r.upstream name names _ held)
  | inr new ↦ rw new (
      any-set_of name (names ++ r.upstream ∷ []) records
      ∙ rw (any-snoc (λ n. n == name) names r.upstream) (ground arith))
]

All-distinct-snoc :
    (n u : String) (names : List String)
    → u ≢ n
    → All (λ held. held ≢ n) names
    → All (λ held. held ≢ n) (names ++ u ∷ [])
All-distinct-snoc n u [] d h = (d, tt)
All-distinct-snoc n u (m ∷ names) d (h, hs) = (h, All-distinct-snoc n u names d hs)

IsDistinct-snoc :
    (u : String) (names : List String)
    → any (λ n. n == u) names ≡ false
    → IsDistinct names
    → IsDistinct (names ++ u ∷ [])
IsDistinct-snoc u [] e d = (tt, tt)
IsDistinct-snoc u (n ∷ names) e (d, ds) = (
  All-distinct-snoc n u names (ground (arith, eq_iff n u)) d,
  IsDistinct-snoc u names (ground arith) ds,
)

IsDistinct-set_of :
    (names : List String) (records : List TrafficRecord)
    → IsDistinct names
    → IsDistinct (set_of names records)
unfolding set_of
IsDistinct-set_of names [] d = d
IsDistinct-set_of names (r ∷ records) d = elim (Bool-cases (any (λ n. n == r.upstream) names)) [
  | inl held ↦ rw held (IsDistinct-set_of names records d)
  | inr new ↦ rw new (
      IsDistinct-set_of (names ++ r.upstream ∷ []) records (IsDistinct-snoc r.upstream names new d))
]

-- The filter offers each upstream of the table once, in the order of their names, and no other.
pub unique_upstreams_exact :
    (p : Page) (name : String)
    → IsAscending (unique_upstreams p)
      × (any (λ n. n == name) (unique_upstreams p) ≡ any (λ r. r.upstream == name) p.records)
unfolding unique_upstreams
unique_upstreams_exact p name = (
  sort-IsAscending (set_of [] p.records) (IsDistinct-set_of [] p.records tt),
  any-sort (λ n. n == name) (set_of [] p.records) ∙ any-set_of name [] p.records,
)

module _ (as_record : Json → TrafficRecord) where
  -- Behind "Clear" the choice of an upstream shows "All upstreams", and the filter still holds: on an
  -- open page the next record, if it is of another upstream, is not shown.
  pub cleared_filter_hidden :
      (p : Page) (json : Json)
      → p.paused ≡ false
      → truthy p.upstream_filter ≡ true
      → (as_record json).upstream ≢ p.upstream_filter
      → let cleared = handle as_record p clear_clicked in
        (shown_upstream cleared ≡ "")
        × (filtered (handle as_record cleared (streamed (record_of json))) ≡ [])
  unfolding handle shown_upstream unique_upstreams set_of sort matches
  cleared_filter_hidden p json o t d =
      (refl, ground (arith, eq_iff (as_record json).upstream p.upstream_filter))
