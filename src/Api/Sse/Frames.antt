-- ===== src/Api/Sse/Frames.antt =====
-- The frames that the server writes (`event_source` of server.py) are read back.
use Prim.Native.String.{String, [], ◌∷◌}
use mcpxy.Prelude.{
  Option, none, some, List, [], ◌∷◌, ◌++◌, ◌≡◌, refl, ap, ◌∙◌, arith, ◌<>◌, false, true, All,
  truthy, trim, Char,
}
use text.Mathlib.TextLemmas.{
  cons-append, nil-append, append-nil as text_append-nil, append_assoc as text_append_assoc,
}
use mathlib.Core.Path.{ap₂}
use mcpxy.Api.Json.{Json}
use mcpxy.Api.Sse.{
  TrafficEvent, cut, before, is_newline, split_lines, onto_first, read_line, read_lines, classify,
  emit, read_block, drain, feed, subscribe_traffic,
}
use mcpxy.Api.Sse.Chunks.{join, subscribe_traffic-join, subscribe_traffic-one, feed-cut}

abbrev pub NoNewline : String → Type 0
NoNewline [] = Unit
NoNewline (c ∷ s) = (is_newline c ≡ false) × NoNewline s

abbrev prepend : String → Option (String × String) → Option (String × String)
prepend s none = none
prepend s (some (b, r)) = some (s <> b, r)

cut-skip : (c : Char) (s : String) → is_newline c ≡ false → cut (c ∷ s) ≡ before c (cut s)
unfolding cut
cut-skip c [] h = refl
cut-skip c (d ∷ s) h = rw (h, cut)

before-prepend :
    (c : Char) (s : String) (o : Option (String × String))
    → before c (prepend s o) ≡ prepend (c ∷ s) o
before-prepend c s none = refl
before-prepend c s (some (b, r)) = rw cons-append

prepend-nil : (o : Option (String × String)) → o ≡ prepend "" o
prepend-nil none = refl
prepend-nil (some (b, r)) = rw nil-append

cut-NoNewline : (s t : String) → NoNewline s → cut (s <> t) ≡ prepend s (cut t)
cut-NoNewline [] t h = rw nil-append (prepend-nil (cut t))
cut-NoNewline (c ∷ s) t (h, hs) =
    rw (cons-append, cut-skip c (s <> t) h, cut-NoNewline s t hs) (before-prepend c s (cut t))

split_lines-NoNewline : (s : String) → NoNewline s → split_lines s ≡ s ∷ []
unfolding split_lines
split_lines-NoNewline [] h = refl
split_lines-NoNewline (c ∷ s) (h, hs) = rw (h, split_lines-NoNewline s hs)

abbrev newline : Char
newline = "\n"

split_lines-cons :
    (c : Char) (s : String)
    → is_newline c ≡ false
    → split_lines (c ∷ s) ≡ onto_first c (split_lines s)
unfolding split_lines
split_lines-cons c s h = rw h

split_lines-line :
    (s t : String) → NoNewline s → split_lines (s <> (newline ∷ t)) ≡ s ∷ split_lines t
split_lines-line [] t h = rw nil-append (unfold split_lines in refl)
split_lines-line (c ∷ s) t (h, hs) =
    rw (cons-append, split_lines-cons c _ h, split_lines-line s t hs) refl

-- `data: {d}`
abbrev pub data_line : String → String
data_line d = "d" ∷ "a" ∷ "t" ∷ "a" ∷ ":" ∷ " " ∷ d

-- The frames of the stream: a heartbeat, the snapshot, a record; each ends with an empty line.
pub data Frame : Type 0 where
  heartbeat : Frame
  snapshot_frame record_frame : (payload : String) → Frame

abbrev pub body_of : Frame → String
body_of heartbeat = ": heartbeat"
body_of (snapshot_frame d) = "event: snapshot" <> (newline ∷ data_line d)
body_of (record_frame d) = data_line d

abbrev pub print_all : List Frame → String
print_all [] = ""
print_all (f ∷ fs) = body_of f <> (newline ∷ newline ∷ print_all fs)

-- A payload is on one line, is not empty, and has no white space at its ends.
abbrev pub IsPayload : String → Type 0
IsPayload d = NoNewline d × (trim d ≡ d) × (truthy d ≡ true)

abbrev pub IsFrame : Frame → Type 0
IsFrame heartbeat = Unit
IsFrame (snapshot_frame d) = IsPayload d
IsFrame (record_frame d) = IsPayload d

cut-blank : (rest : String) → cut (newline ∷ newline ∷ rest) ≡ some ("", rest)
unfolding cut
cut-blank rest = refl

cut-newline :
    (d : Char) (s : String)
    → is_newline d ≡ false
    → cut (newline ∷ d ∷ s) ≡ before newline (cut (d ∷ s))
unfolding cut
cut-newline d s h = rw (h, cut)

cut-line : (s rest : String) → NoNewline s → cut (s <> (newline ∷ newline ∷ rest)) ≡ some (s, rest)
cut-line s rest h =
    rw (cut-NoNewline s (newline ∷ newline ∷ rest) h, cut-blank rest) (rw text_append-nil)

data_line-NoNewline : (d : String) → NoNewline d → NoNewline (data_line d)
data_line-NoNewline d h = (refl, (refl, (refl, (refl, (refl, (refl, h))))))

data_line-rest :
    (d rest : String)
    → NoNewline d
    → cut ("d" ∷ (("a" ∷ "t" ∷ "a" ∷ ":" ∷ " " ∷ d) <> (newline ∷ newline ∷ rest)))
      ≡ some (data_line d, rest)
data_line-rest d rest h = rw (← cons-append) (cut-line (data_line d) rest (data_line-NoNewline d h))

cut-after :
    (s b rest : String)
    → NoNewline s
    → cut (b <> (newline ∷ newline ∷ rest)) ≡ some (b, rest)
    → cut ((s <> b) <> (newline ∷ newline ∷ rest)) ≡ some (s <> b, rest)
cut-after s b rest h e = rw (text_append_assoc, cut-NoNewline s _ h, e)

heartbeat_line : NoNewline ": heartbeat"
heartbeat_line = ground arith

event_line : NoNewline "event: snapshot"
event_line = ground arith

cut-body :
    (f : Frame) (rest : String)
    → IsFrame f
    → cut (body_of f <> (newline ∷ newline ∷ rest)) ≡ some (body_of f, rest)
cut-body heartbeat rest h = cut-line ": heartbeat" rest heartbeat_line
cut-body (record_frame d) rest h = cut-line (data_line d) rest (data_line-NoNewline d h.0)
cut-body (snapshot_frame d) rest h =
    cut-after "event: snapshot" (newline ∷ data_line d) rest event_line (
      rw (cons-append, cons-append)
        (cut-newline "d" _ refl ∙ ap (before newline) (data_line-rest d rest h.0)))

module _ (parse_json : String → Option Json) where
  abbrev pub parsed_as : String → String → List TrafficEvent
  parsed_as event d = elim (parse_json d) [ none ↦ [] | some parsed ↦ classify event parsed ∷ [] ]

  abbrev pub expected : Frame → List TrafficEvent
  expected heartbeat = []
  expected (snapshot_frame d) = parsed_as "snapshot" d
  expected (record_frame d) = parsed_as "message" d

  trim-blank : (d : String) → trim (" " ∷ d) ≡ trim d
  unfolding trim
  trim-blank d = refl

  read_line-data_line :
      (event d : String) → trim d ≡ d → read_line (event, "") (data_line d) ≡ (event, d)
  unfolding read_line
  read_line-data_line event d h = rw (nil-append, trim-blank d, h)

  -- `currentEvent` and `dataLine` behind the lines of each frame.
  read-snapshot :
      (d : String)
      → IsPayload d
      → read_lines ("message", "") (split_lines (body_of (snapshot_frame d))) ≡ ("snapshot", d)
  unfolding read_lines
  read-snapshot d (nl, trimmed, filled) =
      rw
        (
          split_lines-line "event: snapshot" (data_line d) event_line,
          split_lines-NoNewline (data_line d) (data_line-NoNewline d nl),
        )
        (ap (λ s. read_line s (data_line d)) read-event ∙ read_line-data_line "snapshot" d trimmed)
    where
      read-event : read_line ("message", "") "event: snapshot" ≡ ("snapshot", "")
      read-event = unfold read_line trim in refl

  read-record :
      (d : String)
      → IsPayload d
      → read_lines ("message", "") (split_lines (data_line d)) ≡ ("message", d)
  unfolding read_lines
  read-record d (nl, trimmed, filled) =
      rw (split_lines-NoNewline (data_line d) (data_line-NoNewline d nl))
        (read_line-data_line "message" d trimmed)

  emit-payload :
      (event d : String) → truthy d ≡ true → emit parse_json (event, d) ≡ parsed_as event d
  unfolding emit
  emit-payload event d h = rw h

  read_block-body : (f : Frame) → IsFrame f → read_block parse_json (body_of f) ≡ expected f
  unfolding read_block
  read_block-body heartbeat h = unfold read_lines read_line split_lines in refl
  read_block-body (record_frame d) h =
      ap (emit parse_json) (read-record d h) ∙ emit-payload "message" d h.2
  read_block-body (snapshot_frame d) h =
      ap (emit parse_json) (read-snapshot d h) ∙ emit-payload "snapshot" d h.2

  abbrev pub expected_all : List Frame → List TrafficEvent
  expected_all [] = []
  expected_all (f ∷ fs) = expected f ++ expected_all fs

  feed-print_all :
      (fs : List Frame) → All IsFrame fs → (feed parse_json "" (print_all fs)).0 ≡ expected_all fs
  feed-print_all [] h = unfold feed drain cut in refl
  feed-print_all (f ∷ fs) (h, hs) =
      feed-cut parse_json (print_all (f ∷ fs)) (cut-body f (print_all fs) h)
      ∙ ap₂ ◌++◌ (read_block-body f h) (feed-print_all fs hs)

  -- Whatever frames the server writes, if each payload is one line that is not empty and has no
  -- white space at its ends, and however the network cuts them into chunks, the subscriber gets
  -- one event for each snapshot and each record whose payload parses, in order, and none for a
  -- heartbeat.
  pub subscribe_traffic-frames :
      (fs : List Frame) (chunks : List String)
      → All IsFrame fs
      → join chunks ≡ print_all fs
      → subscribe_traffic parse_json chunks ≡ expected_all fs
  subscribe_traffic-frames fs chunks h e =
      subscribe_traffic-join parse_json chunks
      ∙ ap (λ s. subscribe_traffic parse_json (s ∷ [])) e
      ∙ subscribe_traffic-one parse_json (print_all fs)
      ∙ feed-print_all fs h
