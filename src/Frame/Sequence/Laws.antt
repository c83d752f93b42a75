-- ===== src/Frame/Sequence/Laws.antt =====
-- What one request does to the validator.
use air_dap.Frame.ErrorCode
use air_dap.Frame.{
  Header, IsWellFormed, validate_header, validate_fields-IsWellFormed, IsWellFormed-validate_fields,
}
use air_dap.Frame.MessageType.{request_message_type}
use air_dap.Frame.Sequence.{
  Validator, next_sequence, validate_request, validate_request_sequence, validator_init,
  check_sequence,
}
use air_dap.Frame.Sequence.Numbers.{IsNumber, next_sequence-IsNumber}
use air_dap.Prelude.{
  ℕ, ◌<◌, ◌≡◌, ◌≢◌, arith, some, true, false, ◌↔◌, inl, inr, refl, ap, ◌==◌, Bool-cases,
}

-- A validator after `airdap_frame_sequence_validator_init` with a session and any requests.
pub record IsLive (v : Validator) : Type 0 where
  pub in_session : 0 < v.session_id
  pub expected_number : IsNumber v.expected_sequence
  pub started : v.has_last_sequence ≡ true → IsNumber v.last_sequence
  pub follows : v.has_last_sequence ≡ true → v.expected_sequence ≡ next_sequence v.last_sequence
  pub fresh : v.has_last_sequence ≡ false → v.expected_sequence ≡ 1

-- The requests that may be accepted.
pub record IsExpected (v : Validator) (request : Header) : Type 0 where
  pub well_formed : IsWellFormed request
  pub is_request : request_message_type request.typ ≡ true
  pub same_session : request.session_id ≡ v.session_id
  pub in_turn : request.sequence ≡ v.expected_sequence

pub validate_request_sound :
    (v : Validator) (request : Header)
    → (validate_request v request).0 ≡ ErrorCode.none
    → IsExpected v request
unfolding validate_request validate_header check_sequence
validate_request_sound v request e = ground (arith, validate_fields-IsWellFormed request)

pub validate_request_complete :
    (v : Validator) (request : Header)
    → IsLive v
    → IsExpected v request
    → validate_request v request ≡ (
      ErrorCode.none,
      record v {
        last_sequence = v.expected_sequence;
        has_last_sequence = true;
        expected_sequence = next_sequence v.expected_sequence;
      },
    )
unfolding validate_request validate_header check_sequence
validate_request_complete v request live x =
    ground (arith, IsWellFormed-validate_fields request x.well_formed)

pub validate_request-unchanged :
    (v : Validator) (request : Header)
    → (validate_request v request).0 ≢ ErrorCode.none
    → (validate_request v request).1 ≡ v
unfolding validate_request validate_header check_sequence
validate_request-unchanged v request refused = ground arith

pub validator_init-IsLive :
    (old : Validator) (session_id : ℕ) (v : Validator)
    → validator_init (some old) session_id ≡ (ErrorCode.none, some v)
    → IsLive v
unfolding validator_init
validator_init-IsLive old session_id v e = ground arith

-- The validator after the expected request has been accepted.
abbrev pub advanced : Validator → Validator
advanced v = record v {
  last_sequence = v.expected_sequence;
  has_last_sequence = true;
  expected_sequence = next_sequence v.expected_sequence;
}

advanced-IsLive : (v : Validator) → IsLive v → IsLive (advanced v)
advanced-IsLive v live = record {
  in_session = live.in_session;
  expected_number = next_sequence-IsNumber v.expected_sequence live.expected_number;
  started = λ _. live.expected_number;
  follows = λ _. refl;
  fresh = λ e. cc;
}

pub validate_request-IsLive :
    (v : Validator) (request : Header) → IsLive v → IsLive (validate_request v request).1
validate_request-IsLive v request live = elim (Bool-cases ((validate_request v request).0 == 0)) [
  | inl taken ↦
      rw
        (validate_request_complete v request live (validate_request_sound v request (ground arith)))
        (advanced-IsLive v live)
  | inr refused ↦ rw (validate_request-unchanged v request (ground arith)) live
]

-- For a validator that was initialised with a session, `airdap_frame_validate_request_sequence`
-- accepts exactly the well-formed requests of its session that carry the expected sequence number;
-- it then expects the next number and remembers this one. A request that it does not accept leaves the
-- validator as it was. In both cases the validator stays one that further requests may be given to.
pub validate_request_outcome :
    (v : Validator) (request : Header)
    → IsLive v
    → let r = validate_request v request in
      (validate_request_sequence (some v) (some request) ≡ (r.0, some r.1))
      × ((r.0 ≡ ErrorCode.none) ↔ IsExpected v request)
      × (r.0 ≡ ErrorCode.none → r.1 ≡ advanced v)
      × (r.0 ≢ ErrorCode.none → r.1 ≡ v)
      × IsLive r.1
unfolding validate_request_sequence
validate_request_outcome v request live = (
  refl,
  (
    validate_request_sound v request,
    λ x. ap (λ r. r.0) (validate_request_complete v request live x),
  ),
  λ e.
      ap (λ r. r.1) (validate_request_complete v request live (validate_request_sound v request e)),
  validate_request-unchanged v request,
  validate_request-IsLive v request live,
)
