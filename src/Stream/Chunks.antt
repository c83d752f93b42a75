-- ===== src/Stream/Chunks.antt =====
-- USB packets may cut a request anywhere.
use air_dap.Dap.{buffer_size}
use air_dap.Stream.{
  Stream, StreamResult, ok, malformed, overflow, IsStream, pending, FeedOut, feed_given,
}
use air_dap.Stream.Parses.{
  Parses, halts, takes, Fails, fails, later, front, Parses-trans, Fails-trans, Parses-concat,
  concat,
}
use air_dap.Stream.Refinement.{Handles, arrived, feed_given-Handles}
use air_dap.Prelude.{
  ℕ, ◌+◌, ◌≤◌, ◌≡◌, ◌⊎◌, inl, inr, refl, sym, ap, subst, ◌∙◌, arith, List, ◌∷◌, ◌++◌, length, take,
  append_assoc, take_all, length-append, length-take,
}

-- The bytes have one meaning.
Parses-unique :
    {p r1 r2 : List ℕ} {q1 q2 : List (List ℕ)}
    → Parses p q1 r1
    → Parses p q2 r2
    → (q1 ≡ q2) × (r1 ≡ r2)
Parses-unique (halts e) (halts f) = (refl, refl)
Parses-unique (halts e) (takes n fits z) = absurd (n e)
Parses-unique (takes n fits z) (halts e) = absurd (n e)
Parses-unique {p = p} (takes n fits y) (takes m gits z) =
    let (e, f) = Parses-unique y z in (ap (◌∷◌ (take (front p) p)) e, f)

Parses-Fails : {p r : List ℕ} {q1 q2 : List (List ℕ)} → Parses p q1 r → Fails p q2 → ⊥
Parses-Fails (halts e) (fails f) = omega (arith, e, f)
Parses-Fails (halts e) (later n fits z) = n e
Parses-Fails (takes n fits z) (fails f) = omega (arith, fits, f)
Parses-Fails (takes n fits y) (later m gits z) = Parses-Fails y z

Fails-unique : {p : List ℕ} {q1 q2 : List (List ℕ)} → Fails p q1 → Fails p q2 → q1 ≡ q2
Fails-unique (fails f) (fails g) = refl
Fails-unique (fails f) (later n fits z) = absurd (omega (arith, fits, f))
Fails-unique (later n fits z) (fails f) = absurd (omega (arith, fits, f))
Fails-unique {p = p} (later n fits y) (later m gits z) =
    ap (◌∷◌ (take (front p) p)) (Fails-unique y z)

result-cases : (r : StreamResult) → (r ≡ ok) ⊎ ((r ≡ malformed) ⊎ (r ≡ overflow))
result-cases ok = inl refl
result-cases malformed = inr (inl refl)
result-cases overflow = inr (inr refl)

-- What a call returns when the bytes have a meaning and fit.
Handles-Parses :
    {p r : List ℕ} {requests : List (List ℕ)} (out : FeedOut)
    → Handles p out
    → length p ≤ buffer_size
    → Parses p requests r
    → (out.result ≡ ok) × (out.requests ≡ requests) × (pending out.stream ≡ r)
Handles-Parses out h fits q = elim (result-cases out.result) [
  | inl e ↦ let (same, rest) = Parses-unique (h.parsed e).1 q in (e, same, rest)
  | inr (inl e) ↦ absurd (Parses-Fails q (h.failed e).1)
  | inr (inr e) ↦ absurd (omega (arith, (h.refused_lem e).0, fits))
]

Handles-Fails :
    {p : List ℕ} {requests : List (List ℕ)} (out : FeedOut)
    → Handles p out
    → length p ≤ buffer_size
    → Fails p requests
    → (out.result ≡ malformed) × (out.requests ≡ requests)
Handles-Fails out h fits q = elim (result-cases out.result) [
  | inl e ↦ absurd (Parses-Fails (h.parsed e).1 q)
  | inr (inl e) ↦ (e, Fails-unique (h.failed e).1 q)
  | inr (inr e) ↦ absurd (omega (arith, (h.refused_lem e).0, fits))
]

-- Two packets or one make no difference while their bytes fit: if the first one is accepted, then
-- feeding the two one after the other and feeding them joined give the same result and hand on the same
-- requests in the same order, at whatever times they arrive; and if the result is OK, the same bytes are
-- kept.
pub feed_given-append :
    (s : Stream) (xs ys : List ℕ) (t1 t2 t3 : ℕ)
    → IsStream s
    → (feed_given s xs (length xs) t1).result ≡ ok
    → s.used + length xs + length ys ≤ buffer_size
    → let first = feed_given s xs (length xs) t1 in
      let second = feed_given first.stream ys (length ys) t2 in
      let joined = feed_given s (xs ++ ys) (length (xs ++ ys)) t3 in
      (joined.result ≡ second.result)
      × (joined.requests ≡ first.requests ++ second.requests)
      × (joined.result ≡ ok → pending joined.stream ≡ pending second.stream)
feed_given-append s xs ys t1 t2 t3 v e room = elim (result-cases second.result) [
  | inl f ↦
      let (c, d, r) = Handles-Parses joined handled fits (
        subst (λ (p : List ℕ). Parses p (first.requests ++ second.requests) (pending second.stream))
          bytes
          (Parses-trans ys (pending second.stream) second.requests parsed
            (later_bytes (h2.parsed f).1))) in
      (c ∙ sym f, d, λ _. r)
  | inr (inl f) ↦
      let (c, d) = Handles-Fails joined handled fits (
        subst (λ (p : List ℕ). Fails p (first.requests ++ second.requests)) bytes
          (Fails-trans ys second.requests parsed (later_bad (h2.failed f).1))) in
      (c ∙ sym f, d, λ g. cc)
  | inr (inr f) ↦ absurd (omega (arith, (h2.refused_lem f).0, kept))
]
  where
    first : FeedOut
    first = feed_given s xs (length xs) t1

    second : FeedOut
    second = feed_given first.stream ys (length ys) t2

    joined : FeedOut
    joined = feed_given s (xs ++ ys) (length (xs ++ ys)) t3

    h1 : Handles (arrived s xs (length xs)) first
    h1 = feed_given-Handles s xs (length xs) t1 v (omega arith)

    h2 : Handles (arrived first.stream ys (length ys)) second
    h2 = feed_given-Handles first.stream ys (length ys) t2 h1.stream_lem (omega arith)

    handled : Handles (arrived s (xs ++ ys) (length (xs ++ ys))) joined
    handled = feed_given-Handles s (xs ++ ys) (length (xs ++ ys)) t3 v (omega arith)

    parsed : Parses (arrived s xs (length xs)) first.requests (pending first.stream)
    parsed = (h1.parsed e).1

    later_bytes :
        Parses (arrived first.stream ys (length ys)) second.requests (pending second.stream)
        → Parses (pending first.stream ++ ys) second.requests (pending second.stream)
    later_bytes =
        subst
          (λ (x : List ℕ).
            Parses (pending first.stream ++ x) second.requests (pending second.stream))
          (take_all ys)

    later_bad :
        Fails (arrived first.stream ys (length ys)) second.requests
        → Fails (pending first.stream ++ ys) second.requests
    later_bad =
        subst (λ (x : List ℕ). Fails (pending first.stream ++ x) second.requests) (take_all ys)

    bytes : arrived s xs (length xs) ++ ys ≡ arrived s (xs ++ ys) (length (xs ++ ys))
    bytes =
        append_assoc (pending s) (take (length xs) xs) ys
        ∙ ap (λ (x : List ℕ). pending s ++ (x ++ ys)) (take_all xs)
        ∙ ap (λ (x : List ℕ). pending s ++ x) (sym (take_all (xs ++ ys)))

    size : length (arrived s xs (length xs)) ≡ s.used + length xs
    size = omega (
      arith,
      length-append (pending s) (take (length xs) xs),
      length-take (length xs) xs (omega arith),
      length-take s.used s.bytes (omega (arith, v.capacity, v.within)),
    )

    fits : length (arrived s (xs ++ ys) (length (xs ++ ys))) ≤ buffer_size
    fits = omega (arith, ap length bytes, length-append (arrived s xs (length xs)) ys, size, room)

    kept : length (arrived first.stream ys (length ys)) ≤ buffer_size
    kept = omega (
      arith,
      ap length (Parses-concat parsed),
      length-append (concat first.requests) (pending first.stream),
      length-append (pending first.stream) (take (length ys) ys),
      length-take (length ys) ys (omega arith),
      size,
      room,
    )
