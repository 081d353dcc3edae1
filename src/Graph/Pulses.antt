-- ===== src/Graph/Pulses.antt =====
-- What one flush shows and counts.
use mcpxy.Prelude.{
  String, Option, none, some, List, [], ◌∷◌, ◌≡◌, inl, inr, refl, ap, ◌∙◌, Bool-cases, arith, foldl,
  is_some, or_else, eq_iff, ◌==◌, if◌then◌else◌,
}
use mcpxy.Record.{lookup, lookup-insert, HasDistinctKeys, HasDistinctKeys-insert}
use mcpxy.Api.Types.{TrafficStatus, TrafficRecord}
use mcpxy.Graph.{Weights, note_first, first_statuses, EdgeStats, no_stats, bump, count}

-- The status of the first record of an edge.
abbrev pub first_of : String → List TrafficRecord → Option TrafficStatus → Option TrafficStatus
first_of edge [] found = found
first_of edge (rec ∷ recs) found =
    first_of edge recs
      (if is_some found then found else if rec.upstream == edge then some rec.status else none)

note_first-lookup :
    (edge : String) (firsts : List (String × TrafficStatus)) (rec : TrafficRecord)
    → lookup edge (note_first firsts rec) ≡ (
        if is_some (lookup edge firsts)
        then lookup edge firsts
        else if rec.upstream == edge
        then some rec.status
        else none)
unfolding note_first
note_first-lookup edge firsts rec =
    ground (arith, lookup-insert rec.upstream edge rec.status firsts, eq_iff rec.upstream edge)

note_first-HasDistinctKeys :
    (firsts : List (String × TrafficStatus)) (rec : TrafficRecord)
    → HasDistinctKeys firsts
    → HasDistinctKeys (note_first firsts rec)
unfolding note_first
note_first-HasDistinctKeys firsts rec h =
    ground (arith, HasDistinctKeys-insert rec.upstream rec.status firsts h)

lookup-firsts :
    (edge : String) (firsts : List (String × TrafficStatus)) (recs : List TrafficRecord)
    → lookup edge (foldl note_first firsts recs) ≡ first_of edge recs (lookup edge firsts)
lookup-firsts edge firsts [] = refl
lookup-firsts edge firsts (rec ∷ recs) =
    lookup-firsts edge (note_first firsts rec) recs
    ∙ ap (first_of edge recs) (note_first-lookup edge firsts rec)

HasDistinctKeys-firsts :
    (firsts : List (String × TrafficStatus)) (recs : List TrafficRecord)
    → HasDistinctKeys firsts
    → HasDistinctKeys (foldl note_first firsts recs)
HasDistinctKeys-firsts firsts [] h = h
HasDistinctKeys-firsts firsts (rec ∷ recs) h =
    HasDistinctKeys-firsts (note_first firsts rec) recs (note_first-HasDistinctKeys firsts rec h)

-- A flush spawns one pulse at most for each edge, and a pulse has the status of the first record
-- of its edge.
pub lookup-first_statuses :
    (edge : String) (recs : List TrafficRecord)
    → (lookup edge (first_statuses recs) ≡ first_of edge recs none)
      × HasDistinctKeys (first_statuses recs)
unfolding lookup
lookup-first_statuses edge recs = (lookup-firsts edge [] recs, HasDistinctKeys-firsts [] recs tt)

module _ (weights : Weights) where
  -- The statistics of one edge, over the records of that edge alone.
  abbrev pub stats_of :
      String → List TrafficRecord → Option (EdgeStats weights) → Option (EdgeStats weights)
  stats_of edge [] s = s
  stats_of edge (rec ∷ recs) s = stats_of edge recs (
      if rec.upstream == edge
      then some (bump weights rec.status (or_else s (no_stats weights)))
      else s)

  lookup-count_one :
      (edge : String) (stats : List (String × EdgeStats weights)) (rec : TrafficRecord)
      → lookup edge (count weights stats rec) ≡ (
          if rec.upstream == edge
          then some (bump weights rec.status (or_else (lookup edge stats) (no_stats weights)))
          else lookup edge stats)
  unfolding count
  lookup-count_one edge stats rec =
      lookup-insert rec.upstream edge
        (bump weights rec.status (or_else (lookup rec.upstream stats) (no_stats weights))) stats
      ∙ elim (Bool-cases (rec.upstream == edge)) [
        | inl same ↦ rw ((eq_iff rec.upstream edge).0 same) refl
        | inr other ↦ rw other refl
      ]

  -- A flush counts every record once, for its own edge.
  pub lookup-count :
      (edge : String) (stats : List (String × EdgeStats weights)) (recs : List TrafficRecord)
      → lookup edge (foldl (count weights) stats recs) ≡ stats_of edge recs (lookup edge stats)
  lookup-count edge stats [] = refl
  lookup-count edge stats (rec ∷ recs) =
      lookup-count edge (count weights stats rec) recs
      ∙ ap (stats_of edge recs) (lookup-count_one edge stats rec)
