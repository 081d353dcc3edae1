-- ===== src/Traffic/Pipeline.antt =====
-- The stream's frames and the table together: from the server's text to the page's records.
use mcpxy.Prelude.{
  ℕ, String, true, false, Option, none, some, List, [], ◌∷◌, ◌++◌, ◌≡◌, ◌≤◌, refl, ap, ◌∙◌, arith,
  All, take, map, length, Option-cases, inl, inr,
}
use mcpxy.Api.Json.{Json, Items}
use mcpxy.Api.Types.{TrafficRecord}
use mcpxy.Api.Sse.{TrafficEvent, snapshot, record_of, items_of, classify, subscribe_traffic}
use mcpxy.Api.Sse.Chunks.{join}
use mcpxy.Api.Sse.Connect.{Reads, answered, subscribe}
use mcpxy.Api.Client.{is_ok}
use mcpxy.Api.Sse.Frames.{
  Frame, heartbeat, snapshot_frame, record_frame, print_all, IsFrame, parsed_as, expected_all,
  subscribe_traffic-frames,
}
use mcpxy.Traffic.{Page, capacity, streamed, as_records, handle, run}
use mcpxy.Traffic.Window.{arrivals, newest_first, run-arrivals_open}

-- What follows the snapshot: records and heartbeats.
abbrev pub IsLive : Frame → Type 0
IsLive (snapshot_frame d) = ⊥
IsLive _ = Unit

abbrev pub parsed_before : Option Json → List Json → List Json
parsed_before none jsons = jsons
parsed_before (some json) jsons = json ∷ jsons

module _ (parse_json : String → Option Json) where
  -- The records of the frames, those that parse, in order.
  abbrev pub payloads : List Frame → List Json
  payloads [] = []
  payloads (record_frame d ∷ fs) = parsed_before (parse_json d) (payloads fs)
  payloads (_ ∷ fs) = payloads fs

  opened-yielded :
      (status : ℕ) (reads : Reads)
      → is_ok status ≡ true
      → (subscribe parse_json (answered status (some reads))).yielded
        ≡ subscribe_traffic parse_json reads.chunks
  unfolding subscribe
  opened-yielded status reads o = ground arith

  classify-message : (json : Json) → classify "message" json ≡ record_of json
  unfolding classify
  classify-message json = elim (Option-cases (items_of json)) [
    | inl e ↦ rw (e, classify) refl
    | inr (items, e) ↦ rw (e, classify) refl
  ]

  classify-snapshot :
      (json : Json) (items : Items)
      → items_of json ≡ some items
      → classify "snapshot" json ≡ snapshot items
  unfolding classify
  classify-snapshot json items e = rw (e, classify) refl

  parsed_one :
      (event d : String) {json : Json}
      → parse_json d ≡ some json
      → parsed_as parse_json event d ≡ classify event json ∷ []
  parsed_one event d e = rw (e, parsed_as) refl

  parsed_none : (event d : String) → parse_json d ≡ none → parsed_as parse_json event d ≡ []
  parsed_none event d e = rw (e, parsed_as) refl

  expected-record_frame :
      (d : String) (events : List TrafficEvent) (jsons : List Json)
      → events ≡ map record_of jsons
      → parsed_as parse_json "message" d ++ events
        ≡ map record_of (parsed_before (parse_json d) jsons)
  expected-record_frame d events jsons h = elim (Option-cases (parse_json d)) [
    | inl e ↦ rw (parsed_none "message" d e, e) h
    | inr (json, e) ↦
        rw (parsed_one "message" d e, classify-message json, e) (ap (λ es. record_of json ∷ es) h)
  ]

  expected_all-payloads :
      (fs : List Frame) → All IsLive fs → expected_all parse_json fs ≡ map record_of (payloads fs)
  expected_all-payloads [] l = refl
  expected_all-payloads (heartbeat ∷ fs) (l, ls) = expected_all-payloads fs ls
  expected_all-payloads (snapshot_frame d ∷ fs) (l, ls) = absurd l
  expected_all-payloads (record_frame d ∷ fs) (l, ls) =
      expected-record_frame d (expected_all parse_json fs) (payloads fs)
        (expected_all-payloads fs ls)

  module _ (as_record : Json → TrafficRecord) where
    streamed-arrivals :
        (jsons : List Json) → map streamed (map record_of jsons) ≡ arrivals as_record jsons
    streamed-arrivals [] = refl
    streamed-arrivals (json ∷ jsons) =
        ap (λ es. streamed (record_of json) ∷ es) (streamed-arrivals jsons)

    handle-snapshot :
        (p : Page) (items : Items)
        → p.paused ≡ false
        → ((handle as_record p (streamed (snapshot items))).records ≡ as_records as_record items)
          × ((handle as_record p (streamed (snapshot items))).paused ≡ false)
    unfolding handle
    handle-snapshot p items o = ground arith

    -- From the server's answer to the table: a successful answer brings a snapshot and then records
    -- and heartbeats, cut into chunks anywhere, until it ends or breaks off between two frames; the
    -- table of an open page then holds the 500 newest records, the streamed ones that parse before
    -- those of the snapshot and the latest first, if each payload is one line that is not empty and
    -- has no white space at its ends, and the snapshot has an array of 500 items at most.
    pub run-subscribe :
        (p : Page) (d : String) (json : Json) (items : Items) (fs : List Frame) (status : ℕ)
        (reads : Reads)
        → is_ok status ≡ true
        → All IsFrame (snapshot_frame d ∷ fs)
        → All IsLive fs
        → parse_json d ≡ some json
        → items_of json ≡ some items
        → join reads.chunks ≡ print_all (snapshot_frame d ∷ fs)
        → p.paused ≡ false
        → length (as_records as_record items) ≤ capacity
        → (run as_record p
            (map streamed (subscribe parse_json (answered status (some reads))).yielded)).records
          ≡ take capacity (newest_first as_record (payloads fs) (as_records as_record items))
    run-subscribe p d json items fs status reads success frames live e f text open_ small =
        let (shown, still) = handle-snapshot p items open_ in
        rw
          (
            opened-yielded status reads success,
            subscribe_traffic-frames parse_json (snapshot_frame d ∷ fs) reads.chunks frames text,
            parsed_one "snapshot" d e,
            classify-snapshot json items f,
            expected_all-payloads fs live,
            streamed-arrivals (payloads fs),
          )
          (run-arrivals_open as_record (handle as_record p (streamed (snapshot items)))
              (payloads fs) still (rw shown small)
            ∙ ap (λ rs. take capacity (newest_first as_record (payloads fs) rs)) shown)
