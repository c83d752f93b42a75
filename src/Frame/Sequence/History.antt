-- ===== src/Frame/Sequence/History.antt =====
-- A connection that validates one request after another.
use air_dap.Frame.ErrorCode
use air_dap.Frame.{Header, initial_sequence}
use air_dap.Frame.Sequence.{Validator, validate_request, next_sequence, validator_init}
use air_dap.Frame.Sequence.Laws.{
  IsLive, validate_request-IsLive, validate_request_sound, validate_request_complete,
  validate_request-unchanged, advanced, validator_init-IsLive,
}
use air_dap.Prelude.{
  ℕ, suc, ◌+◌, ◌-◌, ◌^◌, ◌%◌, ◌∙◌, ◌≡◌, ap, arith, List, [], ◌∷◌, true, false, ◌==◌, if◌then◌else◌,
  Bool-cases, inl, inr, subst, some,
}

-- The requests that are accepted, in order.
unfoldable pub accepted : Validator → List Header → List Header
accepted v [] = []
accepted v (request ∷ requests) =
    let (error, v') = validate_request v request in
    let rest = accepted v' requests in if error == ErrorCode.none then request ∷ rest else rest

-- The number of the request that is accepted after `i` others: 1, 2, 3, … up to 2 ^ 32 - 1, and 1 again.
abbrev pub number : ℕ → ℕ
number i = 1 + i % (2 ^ 32 - 1)

-- The requests carry the numbers of the turns from `i` on, and the given session.
abbrev pub Consecutive : ℕ → ℕ → List Header → Type 0
Consecutive session i [] = Unit
Consecutive session i (r ∷ rs) =
    (r.session_id ≡ session) × (r.sequence ≡ number i) × Consecutive session (suc i) rs

next_sequence-number : (i : ℕ) → next_sequence (number i) ≡ number (suc i)
unfolding next_sequence
next_sequence-number i = ground arith

accepted-Consecutive_from :
    (i : ℕ) (v : Validator) (requests : List Header)
    → IsLive v
    → v.expected_sequence ≡ number i
    → Consecutive v.session_id i (accepted v requests)
unfolding accepted
accepted-Consecutive_from i v [] live turn = tt
accepted-Consecutive_from i v (r ∷ rs) live turn =
    elim (Bool-cases ((validate_request v r).0 == ErrorCode.none)) [
      | inl taken ↦ rw taken (
        (validate_request_sound v r (ground arith)).same_session,
        (validate_request_sound v r (ground arith)).in_turn ∙ turn,
        subst (λ (n : ℕ). Consecutive n (suc i) rest)
            (ap (λ (w : Validator). w.session_id) (moved taken))
            (accepted-Consecutive_from (suc i) (validate_request v r).1 rs
              (validate_request-IsLive v r live)
              (ap (λ (w : Validator). w.expected_sequence) (moved taken)
                ∙ ap next_sequence turn
                ∙ next_sequence-number i)),
      )
      | inr refused ↦ rw refused (
          subst (λ (n : ℕ). Consecutive n i rest)
            (ap (λ (w : Validator). w.session_id) (still refused))
            (accepted-Consecutive_from i (validate_request v r).1 rs
              (validate_request-IsLive v r live)
              (ap (λ (w : Validator). w.expected_sequence) (still refused) ∙ turn)))
    ]
  where
    rest : List Header
    rest = accepted (validate_request v r).1 rs

    moved :
        ((validate_request v r).0 == ErrorCode.none) ≡ true → (validate_request v r).1 ≡ advanced v
    moved e =
        ap (λ p. p.1)
          (validate_request_complete v r live (validate_request_sound v r (ground arith)))

    still : ((validate_request v r).0 == ErrorCode.none) ≡ false → (validate_request v r).1 ≡ v
    still e = validate_request-unchanged v r (ground arith)

validator_init-start :
    (old v : Validator) (session : ℕ)
    → validator_init (some old) session ≡ (ErrorCode.none, some v)
    → (v.session_id ≡ session) × (v.expected_sequence ≡ initial_sequence)
unfolding validator_init
validator_init-start old v session e = ground arith

-- From `airdap_frame_sequence_validator_init` with a session on, whatever requests arrive: those that
-- are accepted carry the session, and in the order of their acceptance the numbers 1, 2, 3, … with none
-- left out and none repeated; after 2 ^ 32 - 1 of them the numbers start at 1 again.
pub accepted-Consecutive :
    (old v : Validator) (session : ℕ) (requests : List Header)
    → validator_init (some old) session ≡ (ErrorCode.none, some v)
    → Consecutive session 0 (accepted v requests)
accepted-Consecutive old v session requests e =
    subst (λ (s : ℕ). Consecutive s 0 (accepted v requests))
      (validator_init-start old v session e).0
      (accepted-Consecutive_from 0 v requests (validator_init-IsLive old session v e)
        (validator_init-start old v session e).1)
