-- ===== src/Onboarding/FirstServer/Curated.antt =====
-- Which entries of the catalog are offered.
use mcpxy.Prelude.{
  String, Bool, true, false, none, some, List, [], ◌∷◌, ◌≡◌, refl, sym, arith, any, filter, map,
  ◌==◌, eq_iff, ap, ◌∙◌, is_some, Option-cases, inl, inr,
}
use mcpxy.Api.Types.{CatalogEntry, CatalogResponse}
use mcpxy.Onboarding.FirstServer.{curated_ids, by_id, entries_of, curated}

abbrev pub is_offered : List CatalogEntry → String → Bool
is_offered entries id = any (λ (entry : CatalogEntry). entry.id == id) entries

by_id-id :
    (entries : List CatalogEntry) (id : String) {entry : CatalogEntry}
    → by_id entries id ≡ some entry
    → entry.id ≡ id
unfolding by_id
by_id-id [] id h = cc
by_id-id (first ∷ entries) id {entry} h = elim (Option-cases (by_id entries id)) [
  | inl missing ↦ ground (arith, eq_iff first.id id)
  | inr (later, found) ↦ ground (arith, by_id-id entries id found)
]

by_id-offered :
    (entries : List CatalogEntry) (id : String) → is_some (by_id entries id) ≡ is_offered entries id
unfolding by_id
by_id-offered [] id = refl
by_id-offered (first ∷ entries) id = ground (arith, by_id-offered entries id)

entries_of_missing :
    (entries : List CatalogEntry) (id : String) (ids : List String)
    → by_id entries id ≡ none
    → entries_of entries (id ∷ ids) ≡ entries_of entries ids
unfolding entries_of
entries_of_missing entries id ids missing = rw (missing, entries_of) refl

entries_of_found :
    (entries : List CatalogEntry) (id : String) (ids : List String) {entry : CatalogEntry}
    → by_id entries id ≡ some entry
    → entries_of entries (id ∷ ids) ≡ entry ∷ entries_of entries ids
unfolding entries_of
entries_of_found entries id ids found = rw (found, entries_of) refl

abbrev ids_of : List CatalogEntry → List String
ids_of = map (λ (entry : CatalogEntry). entry.id)

entries_of-ids :
    (entries : List CatalogEntry) (ids : List String)
    → ids_of (entries_of entries ids) ≡ filter (is_offered entries) ids
entries_of-ids entries [] = unfold entries_of in refl
entries_of-ids entries (id ∷ ids) = elim (Option-cases (by_id entries id)) [
  | inl missing ↦
      let absent : is_offered entries id ≡ false =
        sym (by_id-offered entries id) ∙ ap is_some missing in
      rw absent (ap ids_of (entries_of_missing entries id ids missing) ∙ entries_of-ids entries ids)
  | inr (entry, found) ↦
      let present : is_offered entries id ≡ true =
        sym (by_id-offered entries id) ∙ ap is_some found in
      rw present (
        ap ids_of (entries_of_found entries id ids found)
        ∙ ap (λ (first : String). first ∷ ids_of (entries_of entries ids))
            (by_id-id entries id found)
        ∙ ap (λ (rest : List String). id ∷ rest) (entries_of-ids entries ids))
]

-- The step offers exactly the curated entries that the catalog has, each once and in the order of
-- the curated list, however often and in whatever order the catalog has them.
pub curated-ids :
    (catalog : CatalogResponse)
    → map (λ (entry : CatalogEntry). entry.id) (curated (some catalog))
      ≡ filter (is_offered catalog.entries) curated_ids
unfolding curated
curated-ids catalog = entries_of-ids catalog.entries curated_ids
