-- ===== src/Frame/Sequence/Order.antt =====
-- How the validator names the requests that it refuses.
use air_dap.Frame.ErrorCode
use air_dap.Frame.{Header, IsWellFormed, validate_header, IsWellFormed-validate_fields}
use air_dap.Frame.MessageType.{request_message_type}
use air_dap.Frame.Sequence.{
  Validator, next_sequence, check_sequence, validate_request, sequence_space,
}
use air_dap.Frame.Sequence.Numbers.{
  IsNumber, next_sequence_lem, advance, advance_lem, forward_distance-advance,
}
use air_dap.Frame.Sequence.Laws.{IsLive}
use air_dap.Prelude.{ℕ, ◌+◌, ◌<◌, ◌≡◌, arith, true, leb, ◌==◌, if◌then◌else◌}

-- What a request is called that is `k` steps of the counter ahead of the expected one. The last
-- accepted request is UINT32_MAX - 1 steps ahead.
unfoldable pub classify : ℕ → ℕ
classify k =
    if k == 0
    then ErrorCode.none
    else if k + 1 == sequence_space
    then ErrorCode.sequence_duplicate
    else if leb k 2147483647
    then ErrorCode.sequence_out_of_order
    else ErrorCode.sequence_stale

steps :
    (k s last : ℕ)
    → IsNumber s
    → IsNumber last
    → s ≡ next_sequence last
    → k < sequence_space
    → ((advance k s ≡ s → k ≡ 0) × (k ≡ 0 → advance k s ≡ s))
      × ((advance k s ≡ last → k + 1 ≡ sequence_space)
          × (k + 1 ≡ sequence_space → advance k s ≡ last))
steps k s last h hl e small = (
  (λ q. omega (arith, advance_lem k s h), λ q. omega (arith, advance_lem k s h)),
  (
    λ q. omega (arith, advance_lem k s h, next_sequence_lem last hl),
    λ q. omega (arith, advance_lem k s h, next_sequence_lem last hl),
  ),
)

-- After a first accepted request, a well-formed request of the session that is `k` steps of the
-- counter ahead of the expected number is accepted for k = 0, a duplicate if it is the last accepted
-- one again, out of order up to 2147483647 steps ahead, and stale beyond, also where the counter has
-- wrapped round.
pub validate_request-classify :
    (v : Validator) (request : Header) (k : ℕ)
    → IsLive v
    → v.has_last_sequence ≡ true
    → IsWellFormed request
    → request_message_type request.typ ≡ true
    → request.session_id ≡ v.session_id
    → k < sequence_space
    → request.sequence ≡ advance k v.expected_sequence
    → (validate_request v request).0 ≡ classify k
unfolding validate_request check_sequence validate_header classify
validate_request-classify v request k live started wf is_request session small ahead = ground (
  arith,
  IsWellFormed-validate_fields request wf,
  steps k v.expected_sequence v.last_sequence,
  forward_distance-advance k v.expected_sequence,
)
