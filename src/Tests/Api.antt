-- ===== src/Tests/Api.antt =====
-- The stream and the client at concrete inputs.
use mcpxy.Prelude.{String, none, List, [], ◌∷◌, ◌≡◌, refl, ◌<>◌, trim, arith, suc, ◌+◌}
use Prim.Native.String.{count}
use mcpxy.Api.Sse.{subscribe_traffic, feed, cut, drain}
use mcpxy.Api.Sse.Chunks.{join, feed_total, subscribe_traffic-join}
use mcpxy.Api.Sse.Frames.{
  Frame, heartbeat, record_frame, IsPayload, expected_all, subscribe_traffic-frames,
}
use mcpxy.Api.Client.{auth_headers, response, receive}
use mcpxy.Api.Client.Token.{auth_headers-receive}
use mcpxy.Tests.Values.{parse_null, parse_or_throw, full_storage, unauthorized}

null-IsPayload : IsPayload "null"
unfolding trim
null-IsPayload = (ground arith, refl, refl)

abbrev two_frames : List Frame
two_frames = heartbeat ∷ record_frame "null" ∷ []

abbrev two_chunks : List String
two_chunks = ": heartbeat\n\nda" ∷ "ta: null\n\n" ∷ []

subscribe_traffic-frames_example :
    subscribe_traffic parse_null two_chunks ≡ expected_all parse_null two_frames
subscribe_traffic-frames_example =
    subscribe_traffic-frames parse_null two_frames two_chunks (tt, (null-IsPayload, tt)) refl

subscribe_traffic-join_example :
    subscribe_traffic parse_null two_chunks ≡ subscribe_traffic parse_null (join two_chunks ∷ [])
subscribe_traffic-join_example = subscribe_traffic-join parse_null two_chunks

feed_total_example :
    (cut (feed parse_null ": heartbeat\n" "\nda").1 ≡ none)
    × (drain parse_null (suc (count (": heartbeat\n" <> "\nda")) + 3) (": heartbeat\n" <> "\nda")
        ≡ feed parse_null ": heartbeat\n" "\nda")
feed_total_example = feed_total parse_null ": heartbeat\n" "\nda" 3

auth_headers-receive_example :
    auth_headers (receive parse_or_throw (response unauthorized) full_storage).1 ≡ []
auth_headers-receive_example = auth_headers-receive parse_or_throw unauthorized full_storage
