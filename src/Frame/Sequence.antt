-- ===== src/Frame/Sequence.antt =====
-- Session and sequence numbers of firmware/components/airdap_frame/airdap_frame.c, and the validator
-- that a connection keeps for its requests.
pub mod Numbers
pub mod Laws
pub mod Order
pub mod History
use air_dap.Frame.ErrorCode
use air_dap.Frame.{Header, validate_header, initial_session_id, initial_sequence}
use air_dap.Frame.MessageType.{request_message_type}
use air_dap.Prelude.{
  ℕ, ◌+◌, ◌-◌, ◌/◌, ◌%◌, ◌^◌, Bool, true, false, not, ◌&&◌, ◌||◌, Option, none, some, leb, ◌==◌,
  if◌then◌else◌,
}

pub record Validator : Type 0 where
  pub session_id : ℕ
  pub expected_sequence : ℕ
  pub last_sequence : ℕ
  pub has_last_sequence : Bool

unfoldable pub next_session_id : ℕ → ℕ
next_session_id current =
    let next = (current + 1) % 2 ^ 32 in if next == 0 then initial_session_id else next

unfoldable pub next_sequence : ℕ → ℕ
next_sequence current =
    let next = (current + 1) % 2 ^ 32 in if next == 0 then initial_sequence else next

abbrev zero_validator : Validator
zero_validator = record {
  session_id = 0;
  expected_sequence = 0;
  last_sequence = 0;
  has_last_sequence = false;
}

unfoldable pub validator_init : Option Validator → ℕ → ℕ × Option Validator
validator_init none session_id = (ErrorCode.internal, none)
validator_init (some _) session_id =
    if session_id == 0 then (ErrorCode.session_mismatch, some zero_validator) else (
      ErrorCode.none,
      some
          (record zero_validator { session_id = session_id; expected_sequence = initial_sequence }),
    )

-- uint64_t subtraction
abbrev sub64 : ℕ → ℕ → ℕ
sub64 a b = (a + 2 ^ 64 - b) % 2 ^ 64

-- UINT32_MAX: sequence numbers run from 1 to this.
abbrev pub sequence_space : ℕ
sequence_space = 0xffff_ffff

unfoldable pub forward_distance : ℕ → ℕ → ℕ
forward_distance sequence expected =
    let request_index = sub64 sequence 1 in
    let expected_index = sub64 expected 1 in
    sub64 ((request_index + sequence_space) % 2 ^ 64) expected_index % sequence_space

-- `airdap_frame_validate_request_sequence` once both pointers are given and the header is accepted.
unfoldable pub check_sequence : Validator → Header → ℕ × Validator
check_sequence v request =
    if not (request_message_type request.typ)
    then (ErrorCode.unsupported_type, v)
    else if v.session_id == 0 || not (request.session_id == v.session_id)
    then (ErrorCode.session_mismatch, v)
    else if request.sequence == v.expected_sequence
    then (
      ErrorCode.none,
      record v {
        last_sequence = request.sequence;
        has_last_sequence = true;
        expected_sequence = next_sequence request.sequence;
      },
    )
    else if v.has_last_sequence && request.sequence == v.last_sequence
    then (ErrorCode.sequence_duplicate, v)
    else if not v.has_last_sequence
    then (ErrorCode.sequence_out_of_order, v)
    else if leb (forward_distance request.sequence v.expected_sequence) (sequence_space / 2)
    then (ErrorCode.sequence_out_of_order, v)
    else (ErrorCode.sequence_stale, v)

unfoldable pub validate_request : Validator → Header → ℕ × Validator
unfolding check_sequence
validate_request v request =
    let header_error = validate_header (some request) in
    if not (header_error == ErrorCode.none) then (header_error, v) else check_sequence v request

unfoldable pub validate_request_sequence : Option Validator → Option Header → ℕ × Option Validator
unfolding validate_request
validate_request_sequence none request = (ErrorCode.internal, none)
validate_request_sequence (some v) none = (ErrorCode.internal, some v)
validate_request_sequence (some v) (some request) =
    let (error, v') = validate_request v request in (error, some v')
