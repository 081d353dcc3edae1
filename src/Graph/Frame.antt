-- ===== src/Graph/Frame.antt =====
-- The scheduling of the flush.
use mcpxy.Prelude.{
  ◌≤◌, true, false, List, [], ◌∷◌, ◌≡◌, ◌⊎◌, inl, inr, refl, Bool-cases, arith, if◌then◌else◌,
}
use mcpxy.Graph.{
  Weights, Live, initial_live, flush_pending, Event, arrived, frame, second, window_picked, handle,
  run,
}

module _ (weights : Weights) where
  pub record Inv (l : Live weights) : Type 0 where
    pub one_frame : l.requested ≡ (if l.scheduled then 1 else 0)
    pub awaited : (l.pending ≡ []) ⊎ (l.scheduled ≡ true)

  initial_live-Inv : Inv (initial_live weights)
  unfolding initial_live
  initial_live-Inv = ground arith

  flush_pending-Inv : (l : Live weights) → l.requested ≡ 0 → Inv (flush_pending weights l)
  unfolding flush_pending
  flush_pending-Inv l h = ground arith

  requested_one : (l : Live weights) → Inv l → l.scheduled ≡ true → l.requested ≡ 1
  requested_one l v h = ground (arith, v.one_frame)

  requested_none : (l : Live weights) → Inv l → l.scheduled ≡ false → l.requested ≡ 0
  requested_none l v h = ground (arith, v.one_frame)

  handle-Inv : (l : Live weights) (e : Event weights) → Inv l → Inv (handle weights l e)
  unfolding handle
  handle-Inv l (arrived visible rec) v = ground arith
  handle-Inv l frame v = elim (Bool-cases l.scheduled) [
    | inl awaited ↦
        let one = requested_one l v awaited in
        rw (one, handle) (flush_pending-Inv (record l { requested = 0 }) refl)
    | inr quiet ↦ let none_ = requested_none l v quiet in rw (none_, handle) v
  ]
  handle-Inv l second v = ground arith
  handle-Inv l (window_picked w) v = ground arith

  run-Inv : (l : Live weights) (events : List (Event weights)) → Inv l → Inv (run weights l events)
  run-Inv l [] v = v
  run-Inv l (e ∷ events) v = run-Inv (handle weights l e) events (handle-Inv l e v)

  -- However fast the records arrive, at most one frame is requested at a time, and a record that
  -- waits always has a frame on its way that will flush it.
  pub one_frame_at_most :
      (events : List (Event weights))
      → let l = run weights (initial_live weights) events in
        (l.requested ≤ 1) × ((l.pending ≡ []) ⊎ (l.requested ≡ 1))
  one_frame_at_most events =
      let l = run weights (initial_live weights) events in
      let v = run-Inv (initial_live weights) events initial_live-Inv in
      (ground (arith, v.one_frame), ground (arith, v.one_frame, v.awaited))
