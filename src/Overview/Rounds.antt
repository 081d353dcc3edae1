-- ===== src/Overview/Rounds.antt =====
-- What the page of Overview.tsx shows while it polls.
use mcpxy.Prelude.{true, false, Option, none, some, List, [], ◌∷◌, ◌≡◌, ◌⊎◌, inl, inr, refl, map}
use mcpxy.Api.Json.{Json, ok, err, promise_all}
use mcpxy.Overview.Polling.{Cards, Event, polled, unmounted, set_cards, handle, run}
use mcpxy.Overview.Summary.{
  Figures, MetricsResponse, HealthResponse, Shown, stat_cards, overview, page,
}

-- The latest round of polls of which both answers came, up to the end of the page.
abbrev pub latest : Option (Json × Json) → List Event → Option (Json × Json)
latest last [] = last
latest last (polled health_first (ok metrics) (ok health) ∷ events) =
    latest (some (metrics, health)) events
latest last (polled health_first metrics health ∷ events) = latest last events
latest last (unmounted ∷ events) = last

-- The state behind a round, or before the first.
abbrev pub cards_of : Option (Json × Json) → Cards
cards_of none = record { metrics = none; health = none; cancelled = false }
cards_of (some (metrics, health)) = record {
  metrics = some metrics;
  health = some health;
  cancelled = false;
}

abbrev cancelled_cards : Cards → Cards
cancelled_cards c = record c { cancelled = true }

-- A page that is left keeps its state.
run-cancelled :
    (c : Cards) (events : List Event) → run (cancelled_cards c) events ≡ cancelled_cards c
unfolding handle set_cards promise_all
run-cancelled c [] = refl
run-cancelled c (polled first (ok m) (ok h) ∷ events) = run-cancelled c events
run-cancelled c (polled first (ok m) (err f) ∷ events) = run-cancelled c events
run-cancelled c (polled first (err e) (ok h) ∷ events) = run-cancelled c events
run-cancelled c (polled first (err e) (err f) ∷ events) = run-cancelled c events
run-cancelled c (unmounted ∷ events) = run-cancelled c events

run-latest :
    (last : Option (Json × Json)) (events : List Event)
    → (run (cards_of last) events ≡ cards_of (latest last events))
      ⊎ (run (cards_of last) events ≡ cancelled_cards (cards_of (latest last events)))
unfolding handle set_cards promise_all
run-latest last [] = inl refl
run-latest none (polled first (ok m) (ok h) ∷ events) = run-latest (some (m, h)) events
run-latest (some r) (polled first (ok m) (ok h) ∷ events) = run-latest (some (m, h)) events
run-latest none (polled first (ok m) (err f) ∷ events) = run-latest none events
run-latest (some r) (polled first (ok m) (err f) ∷ events) = run-latest (some r) events
run-latest none (polled first (err e) (ok h) ∷ events) = run-latest none events
run-latest (some r) (polled first (err e) (ok h) ∷ events) = run-latest (some r) events
run-latest none (polled first (err e) (err f) ∷ events) = run-latest none events
run-latest (some r) (polled first (err e) (err f) ∷ events) = run-latest (some r) events
run-latest last (unmounted ∷ events) = inr (run-cancelled (cards_of last) events)

module _ {ℓ} {N : Type ℓ} (numbers : Figures N) where
  -- The page as it is before an answer has come.
  abbrev pub IsBlank : Shown → Type 0
  IsBlank shown =
      (shown.version ≡ none)
      × (map (λ c. c.value) shown.cards ≡ "—" ∷ "—" ∷ "—" ∷ "—" ∷ [])
      × (shown.rows ≡ [])

  module _ (read_metrics : Json → MetricsResponse N) (read_health : Json → HealthResponse N) where
    -- The page shows the round, or is blank.
    abbrev pub Shows : Option (Json × Json) → Shown → Type 0
    Shows none shown = IsBlank shown
    Shows (some (metrics, health)) shown =
        shown ≡ overview numbers (some (read_metrics metrics)) (some (read_health health))

    page-Shows :
        (last : Option (Json × Json))
        → Shows last (page numbers read_metrics read_health (cards_of last))
    unfolding page overview stat_cards
    page-Shows none = (refl, refl, refl)
    page-Shows (some (metrics, health)) = refl

    -- Whatever the polls answer, in whichever order, and whenever the page is left: it is blank until
    -- both answers of one round have come, and then shows the two answers of the latest such round,
    -- never the metrics of one round beside the health of another.
    pub page_latest :
        (events : List Event)
        → Shows
            (latest none events)
            (page numbers read_metrics read_health (run (cards_of none) events))
    page_latest events =
        let last = latest none events in
        elim (run-latest none events) [
          | inl e ↦ rw e (page-Shows last)
          | inr e ↦ rw e (unfold page in page-Shows last)
        ]
