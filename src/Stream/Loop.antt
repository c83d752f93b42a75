-- ===== src/Stream/Loop.antt =====
-- The `while` of `airdap_dap_stream_feed` against the meaning of the bytes.
use air_dap.Dap.{packet_size, size_max}
use air_dap.Dap.Request.{request_size}
use air_dap.Dap.Request.Stable.{request_size-take}
use air_dap.Stream.{Scan, stopped, refused, with_request, scan}
use air_dap.Stream.Parses.{Parses, halts, Fails, fails, front, front-le, takes_as, later_as}
use air_dap.Prelude.{
  ℕ, zero, suc, ◌+◌, ◌-◌, ◌≤◌, ◌≡◌, ◌≢◌, sym, ap, ◌∙◌, arith, not, ◌||◌, Bool-cases, inl, inr, some,
  List, length, take, drop, ltb, ◌==◌, length-take, length-drop, take-take, drop-take, drop-drop,
}

-- The bytes from an offset on.
abbrev pub window : List ℕ → ℕ → ℕ → List ℕ
window bytes used offset = take (used - offset) (drop offset bytes)

-- What the end of the loop says of the bytes from `offset` on.
abbrev pub Means : List ℕ → ℕ → ℕ → Scan → Type 0
Means bytes used offset (stopped requests o) =
    (offset ≤ o) × (o ≤ used) × Parses (window bytes used offset) requests (window bytes used o)
Means bytes used offset (refused requests) = Fails (window bytes used offset) requests

front-empty : (p : List ℕ) → length p ≡ 0 → front p ≡ 0
unfolding request_size
front-empty p h = ground arith

module _ (bytes : List ℕ) (used : ℕ) (readable : used ≤ length bytes) where
  pub length-window :
      (offset : ℕ) → offset ≤ used → length (window bytes used offset) ≡ used - offset
  length-window offset h =
      length-take (used - offset) (drop offset bytes) (omega (arith, length-drop offset bytes))

  front-window :
      (offset : ℕ)
      → offset ≤ used
      → front (window bytes used offset) ≡ request_size (some (drop offset bytes)) (used - offset)
  front-window offset h =
      ap (request_size (some (window bytes used offset))) (length-window offset h)
      ∙ sym (
          request_size-take (drop offset bytes) (used - offset)
            (omega (arith, length-drop offset bytes)))

  moved : (offset n : ℕ) → window bytes used (offset + n) ≡ drop n (window bytes used offset)
  moved offset n =
      let e : used - (offset + n) ≡ used - offset - n = omega arith in
      ap (λ k. take k (drop (offset + n) bytes)) e
      ∙ ap (take (used - offset - n)) (sym (drop-drop offset n bytes))
      ∙ sym (drop-take n (used - offset) (drop offset bytes))

  with_request-Means :
      (offset n : ℕ)
      → offset ≤ used
      → front (window bytes used offset) ≡ n
      → n ≢ 0
      → n ≤ packet_size
      → n ≤ used - offset
      → (r : Scan) → Means bytes used (offset + n) r
      → Means bytes used offset (with_request (take n (drop offset bytes)) r)
  with_request-Means offset n h e pos fits within (stopped requests o) (low, high, q) = (
    omega arith,
    high,
    takes_as (window bytes used offset) (window bytes used o) (take n (drop offset bytes))
        (window bytes used (offset + n)) requests n e pos fits
        (sym (take-take n (used - offset) (drop offset bytes) within)) (moved offset n) q,
  )
  with_request-Means offset n h e pos fits within (refused requests) q =
      later_as (window bytes used offset) (take n (drop offset bytes))
        (window bytes used (offset + n)) requests n e pos fits
        (sym (take-take n (used - offset) (drop offset bytes) within)) (moved offset n) q

  -- Enough fuel: the loop ends by its own condition.
  pub scan-Means :
      (fuel offset : ℕ)
      → offset ≤ used
      → used - offset ≤ fuel
      → Means bytes used offset (scan fuel bytes used offset)
  unfolding scan
  scan-Means zero offset h enough = (
    omega arith,
    h,
    halts (front-empty (window bytes used offset) (omega (arith, length-window offset h))),
  )
  scan-Means (suc fuel) offset h enough = elim (Bool-cases (not (ltb offset used) || n == 0)) [
    | inl e ↦ rw e (omega arith, h, halts (ground (arith, e, same, empty, length-window offset h)))
    | inr e ↦ rw e (elim (Bool-cases (n == size_max || ltb packet_size n)) [
      | inl f ↦ rw f (fails (ground (arith, f, same)))
      | inr f ↦ rw f (
          with_request-Means offset n h same (ground (arith, e)) (ground (arith, f))
            (within (ground (arith, e)) (ground (arith, f))) (scan fuel bytes used (offset + n))
            (scan-Means fuel (offset + n)
              (omega (arith, within (ground (arith, e)) (ground (arith, f)))) (ground (arith, e))))
    ])
  ]
    where
      n : ℕ
      n = request_size (some (drop offset bytes)) (used - offset)

      same : front (window bytes used offset) ≡ n
      same = front-window offset h

      empty : length (window bytes used offset) ≡ 0 → front (window bytes used offset) ≡ 0
      empty = front-empty (window bytes used offset)

      within : n ≢ 0 → n ≤ packet_size → n ≤ used - offset
      within pos fits = omega (
        arith,
        same,
        length-window offset h,
        front-le (window bytes used offset) (omega (arith, same)) (omega (arith, same)),
      )
