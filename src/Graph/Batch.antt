-- ===== src/Graph/Batch.antt =====
-- The buffer against counters without one.
use mcpxy.Prelude.{
  ℕ, zero, suc, String, Bool, true, false, List, [], ◌∷◌, ◌++◌, ◌≡◌, refl, ap, ◌∙◌, All, foldl,
  Bool-cases, inl, inr, if◌then◌else◌,
}
use mcpxy.Api.Types.{TrafficRecord}
use mcpxy.Graph.{
  Weights, EdgeStats, count, Live, flush_pending, arrive, Event, arrived, frame, second,
  window_picked, handle, run,
}

module _ (weights : Weights) where
  abbrev pub Stats : Type 0
  Stats = List (String × EdgeStats weights)

  -- Counters that count each record as it comes; frames and the window are nothing to them.
  unfoldable pub eager : Stats → Event weights → Stats
  eager stats (arrived visible rec) = if visible then count weights stats rec else stats
  eager stats _ = stats

  -- What the page has counted, and the records that it will count with the next flush.
  unfoldable pub counted : Live weights → Stats
  counted l = foldl (count weights) l.stats l.pending

  abbrev pub IsSteady : Event weights → Type 0
  IsSteady second = ⊥
  IsSteady _ = Unit

  foldl-snoc :
      (stats : Stats) (recs : List TrafficRecord) (rec : TrafficRecord)
      → foldl (count weights) stats (recs ++ rec ∷ [])
        ≡ count weights (foldl (count weights) stats recs) rec
  foldl-snoc stats [] rec = refl
  foldl-snoc stats (r ∷ recs) rec = foldl-snoc (count weights stats r) recs rec

  counted-arrive :
      (visible : Bool) (rec : TrafficRecord) (l : Live weights)
      → counted (arrive weights visible rec l) ≡ eager (counted l) (arrived visible rec)
  unfolding counted eager arrive
  counted-arrive false rec l = refl
  counted-arrive true rec l = elim (Bool-cases l.scheduled) [
    | inl on ↦ rw on (foldl-snoc l.stats l.pending rec)
    | inr off ↦ rw off (foldl-snoc l.stats l.pending rec)
  ]

  counted-flush_pending : (l : Live weights) → counted (flush_pending weights l) ≡ counted l
  unfolding counted flush_pending
  counted-flush_pending l = by_pending l.pending
    where
      by_pending :
          (recs : List TrafficRecord)
          → counted (flush_pending weights (record l { pending = recs }))
            ≡ counted (record l { pending = recs })
      by_pending [] = refl
      by_pending (rec ∷ recs) = refl

  counted-handle :
      (l : Live weights) (e : Event weights)
      → IsSteady e
      → counted (handle weights l e) ≡ eager (counted l) e
  unfolding handle counted eager
  counted-handle l (arrived visible rec) s = counted-arrive visible rec l
  counted-handle l frame s = by_requested l.requested
    where
      by_requested :
          (n : ℕ)
          → counted (handle weights (record l { requested = n }) frame)
            ≡ counted (record l { requested = n })
      by_requested zero = refl
      by_requested (suc n) = counted-flush_pending (record l { requested = n })
  counted-handle l second s = absurd s
  counted-handle l (window_picked w) s = unfold counted eager in refl

  -- Between two ticks of the decay the buffer cannot be observed: however arrivals and frames are
  -- interleaved, what is counted and what waits make up exactly what counting each visible record
  -- at once would give.
  pub counted-run :
      (l : Live weights) (events : List (Event weights))
      → All IsSteady events
      → counted (run weights l events) ≡ foldl eager (counted l) events
  counted-run l [] s = refl
  counted-run l (e ∷ events) (s, ss) =
      counted-run (handle weights l e) events ss
      ∙ ap (λ stats. foldl eager stats events) (counted-handle l e s)
