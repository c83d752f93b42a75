-- ===== src/Stream/Expiry.antt =====
-- The time limit on an incomplete request: `airdap_dap_stream_expire` after `airdap_dap_stream_feed`.
use air_dap.Dap.{buffer_size}
use air_dap.Stream.{
  Stream, ok, empty_stream, timeout_us, expire, Scan, stopped, refused, settle, feed, feed_given,
}
use air_dap.Prelude.{
  ℕ, ◌+◌, ◌≤◌, ◌<◌, ◌≡◌, arith, true, false, some, List, Bool-cases, inl, inr, ltb, ◌-◌,
}

settle-last :
    (s : Stream) (now_us : ℕ) (r : Scan)
    → (settle s now_us r).result ≡ ok
    → 0 < (settle s now_us r).stream.used
    → (settle s now_us r).stream.last_activity_us ≡ now_us
unfolding settle
settle-last s now_us (stopped requests o) e h = ground arith
settle-last s now_us (refused requests) e h = absurd (cc)

feed_given-last :
    (s : Stream) (input : List ℕ) (n now_us : ℕ)
    → (feed_given s input n now_us).result ≡ ok
    → 0 < (feed_given s input n now_us).stream.used
    → (feed_given s input n now_us).stream.last_activity_us ≡ now_us
unfolding feed_given
feed_given-last s input n now_us = elim (Bool-cases (ltb (buffer_size - s.used) n)) [
  | inl e ↦ rw e (λ x h. absurd (cc))
  | inr e ↦ rw e (settle-last _ now_us _)
]

-- After `airdap_dap_stream_feed` has answered OK at time `fed` and kept some bytes, a call of
-- `airdap_dap_stream_expire` at `now` that is not earlier keeps them, and says so, during the next
-- 250 milliseconds, and empties the buffer from then on.
pub feed-expire :
    (s t : Stream) (input : List ℕ) (n fed now : ℕ) (requests : List (List ℕ))
    → feed (some s) (some input) n fed true ≡ (ok, some t, requests)
    → 0 < t.used
    → fed ≤ now
    → (now < fed + timeout_us → expire (some t) now ≡ (false, some t))
      × (fed + timeout_us ≤ now → expire (some t) now ≡ (true, some empty_stream))
unfolding feed expire
feed-expire s t input n fed now requests e h later =
    (λ early. ground (arith, last), λ late. ground (arith, last))
  where
    last : t.last_activity_us ≡ fed
    last = ground (arith, e, feed_given-last s input n fed)
