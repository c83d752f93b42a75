-- ===== src/Stream/Examples.antt =====
-- The theorems on the request buffer at concrete packets, and runs of the code on them.
use air_dap.Dap.Request.{request_size, request_size_of, fixed_length}
use air_dap.Dap.{buffer_size}
use air_dap.Stream.{Stream, ok, pending, empty_stream, scan, settle, feed, feed_given}
use air_dap.Stream.Refinement.{Handles, arrived, feed_given-Handles, empty_stream-IsStream}
use air_dap.Stream.Chunks.{feed_given-append}
use air_dap.Prelude.{ℕ, ◌+◌, ◌≤◌, ◌≡◌, refl, arith, List, [], ◌∷◌, ◌++◌, some, true, zeros}

-- A DISCONNECT, and the first byte of an INFO.
abbrev packet : List ℕ
packet = 3 ∷ 0 ∷ []

abbrev fed : Stream
fed = record { used = 1; last_activity_us = 40; bytes = 0 ∷ 0 ∷ zeros 510 }

feed-packet : feed (some empty_stream) (some packet) 2 40 true ≡ (ok, some fed, (3 ∷ []) ∷ [])
unfolding feed feed_given scan settle request_size request_size_of fixed_length empty_stream
feed-packet = refl

packet_accepted : (feed_given empty_stream packet 2 40).result ≡ ok
unfolding feed_given scan settle request_size request_size_of fixed_length empty_stream
packet_accepted = refl

feed_given-Handles_example :
    Handles (arrived empty_stream packet 2) (feed_given empty_stream packet 2 40)
feed_given-Handles_example =
    feed_given-Handles empty_stream packet 2 40 empty_stream-IsStream (omega arith)

room : empty_stream.used + 2 + 1 ≤ buffer_size
unfolding empty_stream
room = omega arith

feed_given-append_example :
    let first = feed_given empty_stream packet 2 40 in
    let second = feed_given first.stream (4 ∷ []) 1 50 in
    let joined = feed_given empty_stream (packet ++ 4 ∷ []) 3 60 in
    (joined.result ≡ second.result)
    × (joined.requests ≡ first.requests ++ second.requests)
    × (joined.result ≡ ok → pending joined.stream ≡ pending second.stream)
feed_given-append_example =
    feed_given-append empty_stream packet (4 ∷ []) 40 50 60 empty_stream-IsStream packet_accepted
      room
