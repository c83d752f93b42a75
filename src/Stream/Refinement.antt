-- ===== src/Stream/Refinement.antt =====
-- `airdap_dap_stream_feed` against the meaning of the bytes.
use air_dap.Dap.{buffer_size}
use air_dap.Dap.Request.{request_size}
use air_dap.Stream.{
  Stream, ok, malformed, overflow, IsStream, pending, empty_stream, Scan, stopped, refused, scan,
  settle, FeedOut, feed_given,
}
use air_dap.Stream.Parses.{Parses, Fails, Parses-concat, Parses-rest, concat}
use air_dap.Stream.Loop.{window, Means, length-window, scan-Means}
use air_dap.Prelude.{
  ℕ, ◌+◌, ◌-◌, ◌≤◌, ◌<◌, ◌≡◌, refl, sym, ap, subst, ◌∙◌, arith, false, Bool-cases, inl, inr, some,
  List, [], ◌++◌, length, take, drop, write_at, ltb, length-take, take-write_at, length-write_at,
  length-append, length-zeros,
}

-- The bytes that a call has to deal with.
abbrev pub arrived : Stream → List ℕ → ℕ → List ℕ
arrived s input n = pending s ++ take n input

-- What `airdap_dap_stream_feed` returns for them.
pub record Handles (p : List ℕ) (out : FeedOut) : Type 0 where
  pub stream_lem : IsStream out.stream
  pub parsed :
      out.result ≡ ok → (length p ≤ buffer_size) × Parses p out.requests (pending out.stream)
  pub failed :
      out.result ≡ malformed
      → (length p ≤ buffer_size) × Fails p out.requests × (out.stream ≡ empty_stream)
  pub refused_lem :
      out.result ≡ overflow
      → (buffer_size < length p) × (out.requests ≡ []) × (out.stream ≡ empty_stream)

pub empty_stream-IsStream : IsStream empty_stream
unfolding empty_stream
empty_stream-IsStream = record { capacity = length-zeros buffer_size; within = omega arith }

take-front : (xs ys : List ℕ) → length xs ≤ length ys → take (length xs) (write_at 0 xs ys) ≡ xs
take-front xs ys h =
    let e : length xs ≡ 0 + length xs = omega arith in
    let e' : 0 + length xs ≤ length ys = omega (arith, h) in
    ap (λ k. take k (write_at 0 xs ys)) e ∙ take-write_at 0 xs ys e'

module _ (s : Stream) (now_us : ℕ) (cap : length s.bytes ≡ buffer_size)
    (within : s.used ≤ buffer_size) where
  -- The bytes that are kept move to the front.
  pending-settle :
      (requests : List (List ℕ)) (o : ℕ)
      → o ≤ s.used
      → pending (settle s now_us (stopped requests o)).stream ≡ window s.bytes s.used o
  unfolding settle
  pending-settle requests o h = elim (Bool-cases (ltb 0 o)) [
    | inl e ↦ rw e (
        ap (λ k. take k (write_at 0 kept s.bytes)) (sym size)
        ∙ take-front kept s.bytes (omega (arith, size)))
    | inr e ↦ rw e (ap (λ k. take (s.used - o) (drop k s.bytes)) (zero_offset e))
  ]
    where
      kept : List ℕ
      kept = window s.bytes s.used o

      size : length kept ≡ s.used - o
      size = length-window s.bytes s.used (omega arith) o h

      zero_offset : ltb 0 o ≡ false → 0 ≡ o
      zero_offset e = ground (arith, e)

  settle-IsStream : (r : Scan) → IsStream (settle s now_us r).stream
  unfolding settle
  settle-IsStream (refused requests) = empty_stream-IsStream
  settle-IsStream (stopped requests o) = record {
    capacity = ground (arith, length-write_at 0 (window s.bytes s.used o) s.bytes);
    within = omega arith;
  }

  settle-Handles :
      (p : List ℕ)
      → pending s ≡ p
      → length p ≡ s.used
      → Handles p (settle s now_us (scan s.used s.bytes s.used 0))
  unfolding settle
  settle-Handles p e size =
      go (scan s.used s.bytes s.used 0)
        (scan-Means s.bytes s.used (omega arith) s.used 0 (omega arith) (omega arith))
    where
      z : s.used - 0 ≡ s.used
      z = omega arith

      start : window s.bytes s.used 0 ≡ p
      start = ap (λ k. take k s.bytes) z ∙ e

      go : (r : Scan) → Means s.bytes s.used 0 r → Handles p (settle s now_us r)
      go (stopped requests o) (low, high, q) = record {
        stream_lem = settle-IsStream (stopped requests o);
        parsed = λ _. (
          omega (arith, size),
          subst
              (λ (x : List ℕ).
                Parses x requests (pending (settle s now_us (stopped requests o)).stream))
              start
              (subst (Parses (window s.bytes s.used 0) requests)
                (sym (pending-settle requests o high)) q),
        );
        failed = λ x. cc;
        refused_lem = λ x. cc;
      }
      go (refused requests) q = record {
        stream_lem = settle-IsStream (refused requests);
        parsed = λ x. cc;
        failed = λ _. (omega (arith, size), subst (λ (x : List ℕ). Fails x requests) start q, refl);
        refused_lem = λ x. cc;
      }

-- For a buffer within its bounds, and with no pointer NULL, what `airdap_dap_stream_feed` answers is
-- right: OVERFLOW only if the new bytes do not fit behind those that wait, with nothing handed on and the
-- buffer emptied; OK only if they fit, with the requests at the front of all the bytes handed on in order
-- and the rest kept; MALFORMED only if they fit and a malformed request follows those handed on, with the
-- buffer emptied. The buffer stays within its bounds.
pub feed_given-Handles :
    (s : Stream) (input : List ℕ) (n now_us : ℕ)
    → IsStream s
    → n ≤ length input
    → Handles (arrived s input n) (feed_given s input n now_us)
unfolding feed_given
feed_given-Handles s input n now_us v readable = elim (Bool-cases (ltb (buffer_size - s.used) n)) [
  | inl e ↦ rw e (record {
    stream_lem = empty_stream-IsStream;
    parsed = λ x. cc;
    failed = λ x. cc;
    refused_lem = λ _. (ground (arith, e, size, v.within), refl, refl);
  })
  | inr e ↦ rw e (
      settle-Handles (record s { used = s.used + n; bytes = written }) now_us
        (length-write_at s.used (take n input) s.bytes ∙ v.capacity) (fits e) (arrived s input n)
        (together (fits e)) size)
]
  where
    written : List ℕ
    written = write_at s.used (take n input) s.bytes

    got : length (take n input) ≡ n
    got = length-take n input readable

    size : length (arrived s input n) ≡ s.used + n
    size = omega (
      arith,
      got,
      length-append (pending s) (take n input),
      length-take s.used s.bytes (omega (arith, v.capacity, v.within)),
    )

    fits : ltb (buffer_size - s.used) n ≡ false → s.used + n ≤ buffer_size
    fits e = ground (arith, e, v.within)

    together : s.used + n ≤ buffer_size → take (s.used + n) written ≡ arrived s input n
    together h =
        let e : s.used + n ≡ s.used + length (take n input) = omega (arith, got) in
        ap (λ k. take k written) e
        ∙ take-write_at s.used (take n input) s.bytes (omega (arith, got, h, v.capacity))

-- When `airdap_dap_stream_feed` answers OK, no byte is lost, added or reordered: the requests that it
-- handed on, followed by the bytes that it keeps, are the bytes that waited followed by the new ones;
-- and what it keeps does not begin with a whole request.
pub feed_given-concat :
    (s : Stream) (input : List ℕ) (n now_us : ℕ)
    → IsStream s
    → n ≤ length input
    → (feed_given s input n now_us).result ≡ ok
    → let out = feed_given s input n now_us in
      (concat out.requests ++ pending out.stream ≡ pending s ++ take n input)
      × (request_size (some (pending out.stream)) (length (pending out.stream)) ≡ 0)
feed_given-concat s input n now_us v readable e =
    let (_, q) = (feed_given-Handles s input n now_us v readable).parsed e in
    (Parses-concat q, Parses-rest q)
