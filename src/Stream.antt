-- ===== src/Stream.antt =====
-- The buffer that puts DAP requests together from USB packets: firmware/components/usb_device/dap_stream.c.
-- Times are microseconds since boot, so `int64_t` holds no negative one. The callback is the list of the
-- requests that it is given.
pub mod Parses
pub mod Loop
pub mod Refinement
pub mod Chunks
pub mod Expiry
mod Examples
use air_dap.Dap.{buffer_size, packet_size, size_max}
use air_dap.Dap.Request.{request_size}
use air_dap.Prelude.{
  ℕ, zero, suc, ◌+◌, ◌-◌, ◌≤◌, ◌≡◌, Bool, true, false, not, ◌||◌, Option, none, some, is_some, List,
  [], ◌∷◌, length, take, drop, write_at, ltb, ◌==◌, if◌then◌else◌, zeros,
}

abbrev pub timeout_us : ℕ
timeout_us = 250000

pub data StreamResult : Type 0 where
  ok malformed overflow : StreamResult

pub record Stream : Type 0 where
  pub used : ℕ
  pub last_activity_us : ℕ
  pub bytes : List ℕ

-- `memset(stream, 0, sizeof(*stream))`
unfoldable pub empty_stream : Stream
empty_stream = record { used = 0; last_activity_us = 0; bytes = zeros buffer_size }

unfoldable pub stream_init : Option Stream → Option Stream
stream_init none = none
stream_init (some _) = some empty_stream

-- The result, and the stream behind the pointer.
unfoldable pub expire : Option Stream → ℕ → Bool × Option Stream
expire none now_us = (false, none)
expire (some stream) now_us =
    if stream.used == 0
      || ltb now_us stream.last_activity_us
      || ltb (now_us - stream.last_activity_us) timeout_us
    then (false, some stream)
    else (true, some empty_stream)

-- How the `while` ends: the requests that the callback was given, with the final offset unless a
-- malformed request was met.
pub data Scan : Type 0 where
  stopped : List (List ℕ) → ℕ → Scan
  refused : List (List ℕ) → Scan

abbrev pub with_request : List ℕ → Scan → Scan
with_request request (stopped requests offset) = stopped (request ∷ requests) offset
with_request request (refused requests) = refused (request ∷ requests)

-- The `while` of `airdap_dap_stream_feed`. The fuel is the number of bytes that are left.
unfoldable pub scan : ℕ → List ℕ → ℕ → ℕ → Scan
scan zero bytes used offset = stopped [] offset
scan (suc fuel) bytes used offset =
    let request_length = request_size (some (drop offset bytes)) (used - offset) in
    let rest = scan fuel bytes used (offset + request_length) in
    if not (ltb offset used) || request_length == 0
    then stopped [] offset
    else if request_length == size_max || ltb packet_size request_length
    then refused []
    else with_request (take request_length (drop offset bytes)) rest

pub record FeedOut : Type 0 where
  pub result : StreamResult
  pub stream : Stream
  pub requests : List (List ℕ)

-- After the `while`.
unfoldable pub settle : Stream → ℕ → Scan → FeedOut
settle stream now_us (refused requests) = record {
  result = malformed;
  stream = empty_stream;
  requests = requests;
}
settle stream now_us (stopped requests offset) =
    let used = stream.used - offset in
    record {
      result = ok;
      stream = record {
        used = used;
        last_activity_us = if ltb 0 used then now_us else 0;
        bytes =
            if ltb 0 offset
            then write_at 0 (take used (drop offset stream.bytes)) stream.bytes
            else stream.bytes;
      };
      requests = requests;
    }

-- At pointers that are not `NULL`.
unfoldable pub feed_given : Stream → List ℕ → ℕ → ℕ → FeedOut
feed_given stream input input_length now_us =
    let bytes = write_at stream.used (take input_length input) stream.bytes in
    let used = stream.used + input_length in
    if ltb (buffer_size - stream.used) input_length
    then record { result = overflow; stream = empty_stream; requests = [] }
    else settle (record stream { used = used; bytes = bytes }) now_us (scan used bytes used 0)

-- The whole function; the last argument says whether there is a callback.
unfoldable pub feed :
    Option Stream → Option (List ℕ) → ℕ → ℕ → Bool → StreamResult × Option Stream × List (List ℕ)
feed none input input_length now_us callback = (malformed, none, [])
feed (some stream) input input_length now_us false = (malformed, some stream, [])
feed (some stream) none zero now_us true =
    let out = feed_given stream [] 0 now_us in (out.result, some out.stream, out.requests)
feed (some stream) none (suc input_length) now_us true = (malformed, some stream, [])
feed (some stream) (some input) input_length now_us true =
    let out = feed_given stream input input_length now_us in
    (out.result, some out.stream, out.requests)

-- The bytes that wait for the rest of their request.
abbrev pub pending : Stream → List ℕ
pending stream = take stream.used stream.bytes

pub record IsStream (s : Stream) : Type 0 where
  pub capacity : length s.bytes ≡ buffer_size
  pub within : s.used ≤ buffer_size
