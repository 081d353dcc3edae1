-- ===== src/Traffic/Window.antt =====
-- The records that the table holds while the stream runs.
use mcpxy.Prelude.{
  ℕ, true, false, List, [], ◌∷◌, ◌≡◌, ◌≤◌, refl, sym, ap, ◌∙◌, arith, All, take, take-cons-take,
  take-all, take_idem, if◌then◌else◌, Bool-cases, inl, inr, length, length-take,
}
use mcpxy.Api.Json.{Json}
use mcpxy.Api.Types.{TrafficRecord}
use mcpxy.Api.Sse.{snapshot, record_of}
use mcpxy.Traffic.{
  Page, capacity, Event, fetched, streamed, pause_clicked, clear_clicked, upstream_picked,
  method_typed, status_picked, as_records, handle, run,
}

module _ (as_record : Json → TrafficRecord) where
  -- The lists that the server sends are within the capacity.
  abbrev pub IsSmall : Event → Type 0
  IsSmall (fetched items) = length items ≤ capacity
  IsSmall (streamed (snapshot items)) = length (as_records as_record items) ≤ capacity
  IsSmall _ = Unit

  handle-bound :
      (p : Page) (e : Event)
      → IsSmall e
      → length p.records ≤ capacity
      → length (handle as_record p e).records ≤ capacity
  unfolding handle
  handle-bound p (fetched items) s h = s
  handle-bound p (streamed (snapshot items)) s h = ground arith
  handle-bound p (streamed (record_of json)) s h =
      ground (arith, length-take capacity (as_record json ∷ p.records))
  handle-bound p pause_clicked s h = h
  handle-bound p clear_clicked s h = omega arith
  handle-bound p (upstream_picked u) s h = h
  handle-bound p (method_typed u) s h = h
  handle-bound p (status_picked u) s h = h

  -- The table never holds more than 500 records, if no list that the server sends is longer.
  pub run-bound :
      (p : Page) (events : List Event)
      → All IsSmall events
      → length p.records ≤ capacity
      → length (run as_record p events).records ≤ capacity
  run-bound p [] s h = h
  run-bound p (e ∷ events) (s, ss) h =
      run-bound (handle as_record p e) events ss (handle-bound p e s h)

  abbrev pub arrivals : List Json → List Event
  arrivals [] = []
  arrivals (json ∷ jsons) = streamed (record_of json) ∷ arrivals jsons

  -- The records of a stream, the newest first, before those that are there.
  abbrev pub newest_first : List Json → List TrafficRecord → List TrafficRecord
  newest_first [] records = records
  newest_first (json ∷ jsons) records = newest_first jsons (as_record json ∷ records)

  handle-open :
      (p : Page) (json : Json)
      → p.paused ≡ false
      → (handle as_record p (streamed (record_of json))).paused ≡ false
  unfolding handle
  handle-open p json o = ground arith

  handle-records :
      (p : Page) (json : Json)
      → p.paused ≡ false
      → (handle as_record p (streamed (record_of json))).records
        ≡ take capacity (as_record json ∷ p.records)
  unfolding handle
  handle-records p json o = rw (o, handle) refl

  handle-paused :
      (p : Page) (json : Json)
      → p.paused ≡ true
      → handle as_record p (streamed (record_of json)) ≡ p
  unfolding handle
  handle-paused p json o = rw (o, handle) refl

  take-newest_first :
      (n : ℕ) (jsons : List Json) (records : List TrafficRecord)
      → take n (newest_first jsons (take n records)) ≡ take n (newest_first jsons records)
  take-newest_first n [] records = take_idem n records
  take-newest_first n (json ∷ jsons) records =
      sym (take-newest_first n jsons (as_record json ∷ take n records))
      ∙ ap (λ rs. take n (newest_first jsons rs)) (take-cons-take n (as_record json) records)
      ∙ take-newest_first n jsons (as_record json ∷ records)

  pub run-arrivals_open :
      (p : Page) (jsons : List Json)
      → p.paused ≡ false
      → length p.records ≤ capacity
      → (run as_record p (arrivals jsons)).records ≡ take capacity (newest_first jsons p.records)
  run-arrivals_open p [] o h = sym (take-all capacity p.records h)
  run-arrivals_open p (json ∷ jsons) o h =
      let next = handle as_record p (streamed (record_of json)) in
      rw
        (
          run-arrivals_open next jsons (handle-open p json o)
              (handle-bound p (streamed (record_of json)) tt h),
          handle-records p json o,
        )
        (take-newest_first capacity jsons (as_record json ∷ p.records))

  run-arrivals_paused :
      (p : Page) (jsons : List Json)
      → p.paused ≡ true
      → (run as_record p (arrivals jsons)).records ≡ p.records
  run-arrivals_paused p [] o = refl
  run-arrivals_paused p (json ∷ jsons) o =
      ap (λ q. (run as_record q (arrivals jsons)).records) (handle-paused p json o)
      ∙ run-arrivals_paused p jsons o

  -- Behind a stream of records a table that is not paused, and had 500 records at most, holds the
  -- 500 newest ones, the latest first; a paused one holds what it has held.
  pub run-arrivals :
      (p : Page) (jsons : List Json)
      → length p.records ≤ capacity
      → (run as_record p (arrivals jsons)).records
        ≡ (if p.paused then p.records else take capacity (newest_first jsons p.records))
  run-arrivals p jsons h = elim (Bool-cases p.paused) [
    | inl paused ↦ ground (arith, run-arrivals_paused p jsons paused)
    | inr open_ ↦ ground (arith, run-arrivals_open p jsons open_ h)
  ]
