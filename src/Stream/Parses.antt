-- ===== src/Stream/Parses.antt =====
-- What a sequence of bytes means: the requests at its front, and the rest.
use air_dap.Dap.{packet_size}
use air_dap.Dap.Request.{request_size}
use air_dap.Dap.Request.Stable.{request_size-append}
use air_dap.Dap.Request.Bounds.{request_size-IsAnswer}
use air_dap.Prelude.{
  ℕ, ◌≤◌, ◌<◌, ◌≡◌, ◌≢◌, refl, sym, ap, subst, ◌∙◌, arith, some, List, [], ◌∷◌, ◌++◌, length, take,
  drop, append_assoc, take-drop, take-append_le, drop-append_le,
}

-- The length that `airdap_dap_request_size` finds.
abbrev pub front : List ℕ → ℕ
front p = request_size (some p) (length p)

-- `Parses p requests rest`: the bytes `p` are these requests in order, then `rest`, at which no whole
-- request stands.
pub data Parses : List ℕ → List (List ℕ) → List ℕ → Type 0 where
  halts : {p : List ℕ} → front p ≡ 0 → Parses p [] p
  takes :
      {p rest : List ℕ} {requests : List (List ℕ)}
      → front p ≢ 0
      → front p ≤ packet_size
      → Parses (drop (front p) p) requests rest
      → Parses p (take (front p) p ∷ requests) rest

-- The bytes are these requests, then `rest`, at which a malformed request stands.
pub data Fails : List ℕ → List (List ℕ) → Type 0 where
  fails : {p : List ℕ} → packet_size < front p → Fails p []
  later :
      {p : List ℕ} {requests : List (List ℕ)}
      → front p ≢ 0
      → front p ≤ packet_size
      → Fails (drop (front p) p) requests
      → Fails p (take (front p) p ∷ requests)

abbrev pub concat : List (List ℕ) → List ℕ
concat [] = []
concat (r ∷ rs) = r ++ concat rs

pub Parses-concat :
    {p rest : List ℕ} {requests : List (List ℕ)}
    → Parses p requests rest
    → concat requests ++ rest ≡ p
Parses-concat (halts e) = refl
Parses-concat {p = p} {rest} (takes {requests = requests} n fits q) =
    append_assoc (take (front p) p) (concat requests) rest
    ∙ ap (λ t. take (front p) p ++ t) (Parses-concat q)
    ∙ take-drop (front p) p

pub Parses-rest :
    {p rest : List ℕ} {requests : List (List ℕ)} → Parses p requests rest → front rest ≡ 0
Parses-rest (halts e) = e
Parses-rest (takes n fits q) = Parses-rest q

-- A length that can be taken lies within the bytes.
pub front-le : (p : List ℕ) → front p ≢ 0 → front p ≤ packet_size → front p ≤ length p
front-le p n fits = ground (arith, request_size-IsAnswer (some p) (length p))

-- `takes` and `later`, with the length and the two parts given by equations.
pub takes_as :
    (p rest head tail : List ℕ) (requests : List (List ℕ)) (n : ℕ)
    → front p ≡ n
    → n ≢ 0
    → n ≤ packet_size
    → head ≡ take n p
    → tail ≡ drop n p
    → Parses tail requests rest
    → Parses p (head ∷ requests) rest
takes_as p rest head tail requests n e some_bytes fits eh et q =
    subst (λ (x : List ℕ). Parses p (x ∷ requests) rest) (ap (λ k. take k p) e ∙ sym eh)
      (takes (omega arith) (omega arith)
        (subst (λ (x : List ℕ). Parses x requests rest) (et ∙ ap (λ k. drop k p) (sym e)) q))

pub later_as :
    (p head tail : List ℕ) (requests : List (List ℕ)) (n : ℕ)
    → front p ≡ n
    → n ≢ 0
    → n ≤ packet_size
    → head ≡ take n p
    → tail ≡ drop n p
    → Fails tail requests
    → Fails p (head ∷ requests)
later_as p head tail requests n e some_bytes fits eh et q =
    subst (λ (x : List ℕ). Fails p (x ∷ requests)) (ap (λ k. take k p) e ∙ sym eh)
      (later (omega arith) (omega arith)
        (subst (λ (x : List ℕ). Fails x requests) (et ∙ ap (λ k. drop k p) (sym e)) q))

-- Bytes that are parsed when they arrive, and again with what follows them.
pub Parses-trans :
    (ys rest' : List ℕ) (requests' : List (List ℕ)) {p rest : List ℕ} {requests : List (List ℕ)}
    → Parses p requests rest
    → Parses (rest ++ ys) requests' rest'
    → Parses (p ++ ys) (requests ++ requests') rest'
Parses-trans ys rest' requests' (halts e) z = z
Parses-trans ys rest' requests' {p = p} (takes {requests = requests} n fits q) z =
    let within : front p ≤ length p = front-le p n fits in
    takes_as (p ++ ys) rest' (take (front p) p) (drop (front p) p ++ ys) (requests ++ requests')
      (front p) (request_size-append p ys n) n fits (sym (take-append_le (front p) p ys within))
      (sym (drop-append_le (front p) p ys within)) (Parses-trans ys rest' requests' q z)

pub Fails-trans :
    (ys : List ℕ) (requests' : List (List ℕ)) {p rest : List ℕ} {requests : List (List ℕ)}
    → Parses p requests rest
    → Fails (rest ++ ys) requests'
    → Fails (p ++ ys) (requests ++ requests')
Fails-trans ys requests' (halts e) z = z
Fails-trans ys requests' {p = p} (takes {requests = requests} n fits q) z =
    let within : front p ≤ length p = front-le p n fits in
    later_as (p ++ ys) (take (front p) p) (drop (front p) p ++ ys) (requests ++ requests') (front p)
      (request_size-append p ys n) n fits (sym (take-append_le (front p) p ys within))
      (sym (drop-append_le (front p) p ys within)) (Fails-trans ys requests' q z)
