-- ===== src/Api/Sse/Connect.antt =====
-- frontend/src/api/sse.ts: the request that opens the traffic stream, what its answer gives, and
-- how the subscription ends.
use mcpxy.Prelude.{
  ℕ, String, false, Option, none, some, List, [], ◌∷◌, ◌≡◌, refl, ap, truthy, show, ◌<>◌, All,
  if◌then◌else◌,
}
use mcpxy.Api.Json.{Json, Thrown, error}
use mcpxy.Api.Client.{Storage, get_token, auth_headers, Request, get, is_ok}
use mcpxy.Api.Sse.{TrafficEvent, subscribe_traffic}
use mcpxy.Api.Sse.Chunks.{join}
use mcpxy.Api.Sse.Frames.{Frame, print_all, IsFrame, expected_all, subscribe_traffic-frames}

-- `...(token ? { Authorization: … } : {})` with the token of `getToken()`.
unfoldable pub stream_headers : Option String → List (String × String)
stream_headers none = []
stream_headers (some token) =
    if truthy token then ("Authorization", "Bearer " <> token) ∷ [] else []

-- The fetch has no `credentials` option.
unfoldable pub stream_request : Storage → Request
unfolding stream_headers get_token
stream_request s = record {
  method = get;
  path = "/admin/api/traffic/stream";
  headers = ("Accept", "text/event-stream") ∷ stream_headers (get_token s);
  include_credentials = false;
  body = none;
}

-- The reads of a body: the chunks, and then its end or the message that a read throws.
pub record Reads : Type 0 where
  pub chunks : List String
  pub failure : Option String

-- What the fetch gives: it throws, or a response of any status, whose `body` can be `null`.
pub data Answer : Type 0 where
  refused : (message : String) → Answer
  answered : (status : ℕ) → (body : Option Reads) → Answer

-- What the generator yields, and what it throws in the end.
pub record Subscription : Type 0 where
  pub yielded : List TrafficEvent
  pub thrown : Option Thrown

abbrev pub connect_failed : ℕ → Subscription
connect_failed status = record {
  yielded = [];
  thrown = some (error ("SSE connect failed: " <> show status));
}

unfoldable pub thrown_by : Option String → Option Thrown
thrown_by none = none
thrown_by (some message) = some (error message)

module _ (parse_json : String → Option Json) where
  -- The generator from its start; `none` for the body is `!res.body`.
  unfoldable pub subscribe : Answer → Subscription
  unfolding thrown_by
  subscribe (refused message) = record { yielded = []; thrown = some (error message) }
  subscribe (answered status none) = connect_failed status
  subscribe (answered status (some reads)) =
      if is_ok status
      then record {
        yielded = subscribe_traffic parse_json reads.chunks;
        thrown = thrown_by reads.failure;
      }
      else connect_failed status

  -- The stream's request carries the token of the other requests. Whatever the server answers, an
  -- answer that is no success or has no body yields nothing and throws an error that names its
  -- status; a success yields, from any chunks of the server's frames, exactly the events of these
  -- frames, and what a read throws in between loses none of those before it and ends the
  -- subscription with that error.
  pub subscribe-frames :
      (s : Storage) (status : ℕ) (reads : Reads) (fs : List Frame)
      → All IsFrame fs
      → join reads.chunks ≡ print_all fs
      → ((stream_request s).headers ≡ ("Accept", "text/event-stream") ∷ auth_headers s)
        × (subscribe (answered status none) ≡ record {
          yielded = [];
          thrown = some (error ("SSE connect failed: " <> show status));
        })
        × (subscribe (answered status (some reads)) ≡ (
            if is_ok status
            then record { yielded = expected_all parse_json fs; thrown = thrown_by reads.failure }
            else record {
              yielded = [];
              thrown = some (error ("SSE connect failed: " <> show status));
            }))
  unfolding subscribe stream_request auth_headers
  subscribe-frames s status reads fs h e = (
    ap (◌∷◌ ("Accept", "text/event-stream")) (same_headers (get_token s)),
    refl,
    rw (subscribe_traffic-frames parse_json fs reads.chunks h e) refl,
  )
    where
      same_headers :
          (token : Option String)
          → stream_headers token ≡ elim token [
            | none ↦ []
            | some t ↦ if truthy t then ("Authorization", "Bearer " <> t) ∷ [] else []
          ]
      same_headers none = refl
      same_headers (some t) = refl
