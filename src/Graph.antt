-- ===== src/Graph.antt =====
-- frontend/src/pages/Graph.tsx: the records that wait for the next animation frame, and the flush.
-- No upstream is named like a member of `Object.prototype`.
pub mod Frame
pub mod Batch
pub mod Polling
pub mod Pulses
pub mod Layout
pub mod Canvas
pub mod Scene
pub mod View
use mcpxy.Prelude.{
  ℕ, zero, suc, String, Bool, true, false, not, Option, none, some, List, [], ◌∷◌, ◌++◌, foldl,
  is_some, or_else, if◌then◌else◌,
}
use mcpxy.Record.{lookup, insert}
use mcpxy.Api.Types.{TrafficStatus, TrafficRecord, is_ok_status}

-- The seconds that the intensity looks back.
pub data Window : Type 0 where
  w60 w300 w900 : Window

-- The two decaying counters of an edge are floating point: a type with 0, `+= 1`, the decay of one
-- second for a window, and the test that two of them are below the floor together.
pub record Weights : Type 1 where
  pub Weight : Type 0
  pub nothing : Weight
  pub one_more : Weight → Weight
  pub decay : Window → Weight → Weight
  pub is_noise : Weight → Weight → Bool

-- `firstStatusByEdge`: a key is set once.
unfoldable pub note_first :
    List (String × TrafficStatus) → TrafficRecord → List (String × TrafficStatus)
note_first firsts rec =
    if is_some (lookup rec.upstream firsts) then firsts else insert rec.upstream rec.status firsts

abbrev pub first_statuses : List TrafficRecord → List (String × TrafficStatus)
first_statuses = foldl note_first []

module _ (weights : Weights) where
  open weights use {Weight, nothing, one_more, decay, is_noise}

  pub record EdgeStats : Type 0 where
    pub ok_ewma : Weight
    pub err_ewma : Weight

  abbrev pub no_stats : EdgeStats
  no_stats = record { ok_ewma = nothing; err_ewma = nothing }

  unfoldable pub bump : TrafficStatus → EdgeStats → EdgeStats
  bump status s =
      if is_ok_status status
      then record s { ok_ewma = one_more s.ok_ewma }
      else record s { err_ewma = one_more s.err_ewma }

  -- The first loop of `flushPending`, without `firstStatusByEdge`.
  unfoldable pub count : List (String × EdgeStats) → TrafficRecord → List (String × EdgeStats)
  count stats rec =
      insert rec.upstream (bump rec.status (or_else (lookup rec.upstream stats) no_stats)) stats

  -- The refs of the page; `requested` counts the frames that `requestAnimationFrame` still owes,
  -- `pulses` what `spawnPulse` was called with, in order.
  pub record Live : Type 0 where
    pub window : Window
    pub pending : List TrafficRecord
    pub scheduled : Bool
    pub requested : ℕ
    pub stats : List (String × EdgeStats)
    pub pulses : List (String × TrafficStatus)

  unfoldable pub initial_live : Live
  initial_live = record {
    window = w60;
    pending = [];
    scheduled = false;
    requested = 0;
    stats = [];
    pulses = [];
  }

  -- `flushPending`
  unfoldable pub flush_pending : Live → Live
  flush_pending l = elim l.pending [
    | [] ↦ record l { scheduled = false }
    | rec ∷ recs ↦ record l {
      scheduled = false;
      pending = [];
      stats = foldl count l.stats (rec ∷ recs);
      pulses = l.pulses ++ first_statuses (rec ∷ recs);
    }
  ]

  -- The body of the `for await` for a record, with `document.visibilityState`.
  unfoldable pub arrive : Bool → TrafficRecord → Live → Live
  arrive visible rec l =
      if not visible
      then l
      else if l.scheduled
      then record l { pending = l.pending ++ rec ∷ [] }
      else record l {
        pending = l.pending ++ rec ∷ [];
        scheduled = true;
        requested = suc l.requested;
      }

  -- The tick of one second.
  unfoldable pub decay_all : Window → List (String × EdgeStats) → List (String × EdgeStats)
  decay_all window [] = []
  decay_all window ((key, s) ∷ stats) =
      let rest = decay_all window stats in
      if is_noise s.ok_ewma s.err_ewma
      then rest
      else (key, record { ok_ewma = decay window s.ok_ewma; err_ewma = decay window s.err_ewma })
        ∷ rest

  pub data Event : Type 0 where
    arrived : (visible : Bool) → TrafficRecord → Event
    frame : Event
    second : Event
    window_picked : Window → Event

  -- A frame runs the callback only if it was requested.
  unfoldable pub handle : Live → Event → Live
  unfolding arrive flush_pending decay_all
  handle l (arrived visible rec) = arrive visible rec l
  handle l frame = elim l.requested [
    | zero ↦ l
    | suc n ↦ flush_pending (record l { requested = n })
  ]
  handle l second = record l { stats = decay_all l.window l.stats }
  handle l (window_picked w) = record l { window = w }

  abbrev pub run : Live → List Event → Live
  run = foldl handle
