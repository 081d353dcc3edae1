-- ===== src/Api/Sse.antt =====
-- frontend/src/api/sse.ts: the frames of the traffic stream. `TextDecoder` stands before the model:
-- a chunk is the text that one read has decoded.
pub mod Chunks
pub mod Connect
pub mod Frames
use Prim.Native.String
use Prim.Native.String.{String, [], ◌∷◌, count}
use mcpxy.Prelude.{
  ℕ, zero, suc, Char, code, Bool, true, false, Option, none, some, List, [], ◌∷◌, ◌++◌, ◌&&◌, ◌==◌,
  nat_eq, truthy, trim, ◌<>◌, if◌then◌else◌,
}
use mcpxy.Api.Json.{Json, object, array, Items, field_of}

pub data TrafficEvent : Type 0 where
  snapshot : Items → TrafficEvent
  record_of : Json → TrafficEvent

abbrev is_newline : Char → Bool
is_newline c = nat_eq (code c) b'\n'

abbrev before : Char → Option (String × String) → Option (String × String)
before c none = none
before c (some (block, rest)) = some (c ∷ block, rest)

-- `indexOf("\n\n")` with the two slices: what stands before the first empty line, and behind it.
unfoldable pub cut : String → Option (String × String)
cut [] = none
cut (c ∷ []) = none
cut (c ∷ d ∷ s) =
    let later = before c (cut (d ∷ s)) in
    if is_newline c && is_newline d then some ("", s) else later

-- `block.split("\n")`, the current line first.
abbrev onto_first : Char → List String → List String
onto_first c [] = (c ∷ []) ∷ []
onto_first c (line ∷ lines) = (c ∷ line) ∷ lines

unfoldable pub split_lines : String → List String
split_lines [] = "" ∷ []
split_lines (c ∷ s) =
    let rest = split_lines s in if is_newline c then "" ∷ rest else onto_first c rest

unfoldable pub starts_with : String → String → Bool
starts_with s [] = true
starts_with [] (p ∷ ps) = false
starts_with (c ∷ s) (p ∷ ps) = nat_eq (code c) (code p) && starts_with s ps

unfoldable pub slice_from : ℕ → String → String
slice_from zero s = s
slice_from (suc n) [] = ""
slice_from (suc n) (c ∷ s) = slice_from n s

-- The loop over a block's lines: `currentEvent` and `dataLine`.
unfoldable pub read_line : String × String → String → String × String
unfolding starts_with slice_from
read_line (event, data_line) line =
    if starts_with line ":"
    then (event, data_line)
    else if starts_with line "event:"
    then (trim (slice_from 6 line), data_line)
    else if starts_with line "data:"
    then (event, data_line <> trim (slice_from 5 line))
    else (event, data_line)

unfoldable pub read_lines : String × String → List String → String × String
read_lines s [] = s
read_lines s (line ∷ lines) = read_lines (read_line s line) lines

-- `parsed?.items` if it is an array.
unfoldable pub items_of : Json → Option Items
items_of (object fields) = elim (field_of fields "items") [
  | some v ↦ elim v [ array items ↦ some items | _ ↦ none ]
  | none ↦ none
]
items_of _ = none

unfoldable pub classify : String → Json → TrafficEvent
classify event parsed = elim (items_of parsed) [
  | some items ↦ if event == "snapshot" then snapshot items else record_of parsed
  | none ↦ record_of parsed
]

-- `JSON.parse` of the runtime is a parameter; `none` is a `SyntaxError`.
module _ (parse_json : String → Option Json) where
  emit : String × String → List TrafficEvent
  emit (event, data_line) =
      if truthy data_line
      then elim (parse_json data_line) [ none ↦ [] | some parsed ↦ classify event parsed ∷ [] ]
      else []

  -- What one block yields: at most one event.
  unfoldable pub read_block : String → List TrafficEvent
  unfolding emit
  read_block block = emit (read_lines ("message", "") (split_lines block))

  -- `while ((idx = buffer.indexOf("\n\n")) !== -1)`, with fuel.
  unfoldable pub drain : ℕ → String → List TrafficEvent × String
  drain zero buffer = ([], buffer)
  drain (suc fuel) buffer = elim (cut buffer) [
    | none ↦ ([], buffer)
    | some (block, rest) ↦
        let (events, left) = drain fuel rest in (read_block block ++ events, left)
  ]

  -- One round of the outer loop: a chunk arrives.
  unfoldable pub feed : String → String → List TrafficEvent × String
  feed buffer chunk = let joined = buffer <> chunk in drain (suc (count joined)) joined

  -- The whole stream, from a buffer; what is left when it ends is never parsed.
  unfoldable pub stream_from : String → List String → List TrafficEvent
  stream_from buffer [] = []
  stream_from buffer (chunk ∷ chunks) =
      let (events, left) = feed buffer chunk in events ++ stream_from left chunks

  unfoldable pub subscribe_traffic : List String → List TrafficEvent
  subscribe_traffic chunks = stream_from "" chunks
