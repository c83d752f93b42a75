-- ===== src/Frame/Examples.antt =====
-- The frame theorems at concrete frames, and runs of the code on them.
use air_dap.Frame.ErrorCode
use air_dap.Frame.MessageType.{request_message_type, valid_message_type, expected_response_type}
use air_dap.Frame.{
  Header, HeaderFits, header_size, validate_fields, validate_header, validate_fields-IsWellFormed,
}
use air_dap.Frame.Bytes.{IsBytes, read_u16_be, read_u32_be}
use air_dap.Frame.Codec.{
  DecodeOut, DecodeStatus, failed, decode, decode_candidate, encode, read_header,
}
use air_dap.Frame.Codec.RoundTrip.{decode-encode, encode-decode}
use air_dap.Frame.Codec.Streaming.{decode-take, decode_failure}
use air_dap.Frame.Codec.Writing.{header_bytes}
use air_dap.Frame.Sequence.{
  Validator, validator_init, validate_request, next_sequence, validate_request_sequence,
}
use air_dap.Frame.Sequence.Laws.{
  IsLive, IsExpected, validate_request_outcome, validator_init-IsLive, advanced,
}
use air_dap.Frame.Sequence.Order.{classify, validate_request-classify}
use air_dap.Frame.Sequence.History.{accepted, Consecutive, accepted-Consecutive}
use air_dap.Frame.Sequence.Numbers.{advance}
use air_dap.Frame.Response.{
  Answers, validate_response, check_response, match_response, validate_response_iff,
}
use air_dap.Frame.ErrorPayload.{
  error_code_encode, error_code_decode, IsCode, error_code_decode-encode,
}
use air_dap.Prelude.{
  ℕ, ◌≡◌, ◌≢◌, ◌↔◌, refl, arith, some, List, [], ◌∷◌, ◌++◌, length, take, drop, true, false, ◌≤◌,
}

-- A HELLO with a payload of two bytes.
abbrev hello_frame : Header
hello_frame = record {
  magic = 0x41444150;
  version = 1;
  typ = 1;
  flags = 0;
  session_id = 7;
  sequence = 1;
  payload_length = 2;
  reserved = 0;
}

-- The frame, followed by a byte of the next one.
abbrev wire : List ℕ
wire =
    0x41 ∷ 0x44 ∷ 0x41 ∷ 0x50 ∷ 1 ∷ 1 ∷ 0 ∷ 0 ∷ 0 ∷ 0 ∷ 0 ∷ 7 ∷ 0 ∷ 0 ∷ 0 ∷ 1 ∷ 0 ∷ 2 ∷ 0 ∷ 0 ∷ 8
    ∷ 9 ∷ 5 ∷ []

abbrev buffer : List ℕ
buffer =
    0 ∷ 0 ∷ 0 ∷ 0 ∷ 0 ∷ 0 ∷ 0 ∷ 0 ∷ 0 ∷ 0 ∷ 0 ∷ 0 ∷ 0 ∷ 0 ∷ 0 ∷ 0 ∷ 0 ∷ 0 ∷ 0 ∷ 0 ∷ 0 ∷ 0 ∷ 0 ∷ []

abbrev outputs : DecodeOut
outputs = failed 0

hello_frame-accepted : validate_fields hello_frame ≡ ErrorCode.none
unfolding validate_fields valid_message_type
hello_frame-accepted = refl

hello_frame-is_request : request_message_type 1 ≡ true
unfolding request_message_type
hello_frame-is_request = refl

hello_frame-HeaderFits : HeaderFits hello_frame
hello_frame-HeaderFits = record {
  magic_u32 = omega arith;
  version_u8 = omega arith;
  typ_u8 = omega arith;
  flags_u16 = omega arith;
  session_id_u32 = omega arith;
  sequence_u32 = omega arith;
  payload_length_u16 = omega arith;
  reserved_u16 = omega arith;
}

abbrev two_bytes : List ℕ
two_bytes = 8 ∷ 9 ∷ []

decode-encode_example :
    let r = encode (some hello_frame) (some two_bytes) (some buffer) (length buffer) (some 0) in
    (r.error ≡ ErrorCode.none)
    × (r.encoded_size ≡ some 22)
    × (decode r.output (length buffer) outputs ≡ (
      DecodeStatus.ok,
      record {
        header = some hello_frame;
        payload = some (some (8 ∷ 9 ∷ 0 ∷ []));
        frame_size = some 22;
        error_code = some ErrorCode.none;
      },
    ))
decode-encode_example =
    decode-encode hello_frame (some two_bytes) buffer 0 outputs hello_frame-accepted
      hello_frame-HeaderFits (omega arith) (omega arith) refl

wire-IsBytes : IsBytes wire
wire-IsBytes = ground arith

-- What decoding the frame returns.
abbrev decoded : DecodeOut
decoded = record {
  header = some hello_frame;
  payload = some (some (drop header_size wire));
  frame_size = some 22;
  error_code = some ErrorCode.none;
}

decode-wire : decode (some wire) 23 outputs ≡ (DecodeStatus.ok, decoded)
unfolding decode decode_candidate validate_header validate_fields valid_message_type read_header
    read_u16_be read_u32_be
decode-wire = refl

encode-decode_example :
    (encode
      (some hello_frame)
      (some (drop header_size wire))
      (some buffer)
      (length buffer)
      (some 0)).output
    ≡ some (take 22 wire ++ drop 22 buffer)
encode-decode_example =
    encode-decode wire buffer 23 outputs decoded hello_frame (some (drop header_size wire))
      wire-IsBytes (omega arith) decode-wire refl refl (omega arith)

short_frame :
    decode (some (take 10 (header_bytes hello_frame ++ two_bytes))) 10 outputs
    ≡ (DecodeStatus.need_more_data, failed ErrorCode.truncated)
short_frame =
    decode-take hello_frame two_bytes 10 outputs hello_frame-accepted hello_frame-HeaderFits refl
      (omega arith) refl

decode_failure_example :
    (code : ℕ) × (failed ErrorCode.truncated ≡ failed code)
    × (code ≢ ErrorCode.none)
    × (DecodeStatus.need_more_data ≡ DecodeStatus.need_more_data → code ≡ ErrorCode.truncated)
    × (code ≡ ErrorCode.truncated → DecodeStatus.need_more_data ≡ DecodeStatus.need_more_data)
decode_failure_example =
    decode_failure (some (take 10 (header_bytes hello_frame ++ two_bytes))) 10 outputs
      (failed ErrorCode.truncated) DecodeStatus.need_more_data refl short_frame (λ e. cc)

abbrev fresh : Validator
fresh = record {
  session_id = 7;
  expected_sequence = 1;
  last_sequence = 0;
  has_last_sequence = false;
}

fresh-start : validator_init (some fresh) 7 ≡ (ErrorCode.none, some fresh)
unfolding validator_init
fresh-start = refl

-- The counter about to wrap round.
abbrev late : Validator
late = record {
  session_id = 7;
  expected_sequence = 0xffff_ffff;
  last_sequence = 0xffff_fffe;
  has_last_sequence = true;
}

late-IsLive : IsLive late
unfolding next_sequence
late-IsLive = record {
  in_session = omega arith;
  expected_number = (omega arith, omega arith);
  started = λ _. (omega arith, omega arith);
  follows = λ _. refl;
  fresh = λ e. cc;
}

validate_request_outcome_example :
    let r = validate_request fresh hello_frame in
    (validate_request_sequence (some fresh) (some hello_frame) ≡ (r.0, some r.1))
    × ((r.0 ≡ ErrorCode.none) ↔ IsExpected fresh hello_frame)
    × (r.0 ≡ ErrorCode.none → r.1 ≡ advanced fresh)
    × (r.0 ≢ ErrorCode.none → r.1 ≡ fresh)
    × IsLive r.1
validate_request_outcome_example =
    validate_request_outcome fresh hello_frame (validator_init-IsLive fresh 7 fresh fresh-start)

abbrev wrapped : Header
wrapped = record hello_frame { sequence = 1 }

late-advance : 1 ≡ advance 1 late.expected_sequence
unfolding advance next_sequence
late-advance = refl

validate_request-classify_example : (validate_request late wrapped).0 ≡ classify 1
validate_request-classify_example =
    validate_request-classify late wrapped 1 late-IsLive refl
      (validate_fields-IsWellFormed wrapped hello_frame-accepted) hello_frame-is_request refl
      (omega arith) late-advance

classified : classify 1 ≡ ErrorCode.sequence_out_of_order
unfolding classify
classified = refl

accepted-Consecutive_example :
    Consecutive 7 0
      (accepted fresh (hello_frame ∷ hello_frame ∷ record hello_frame { sequence = 2 } ∷ []))
accepted-Consecutive_example =
    accepted-Consecutive fresh fresh 7
      (hello_frame ∷ hello_frame ∷ record hello_frame { sequence = 2 } ∷ []) fresh-start

validate_response_iff_example :
    (validate_response (some hello_frame) (some hello_frame) ≡ ErrorCode.none)
    ↔ Answers hello_frame hello_frame
validate_response_iff_example = validate_response_iff (some hello_frame) (some hello_frame)

hello_frame-answered : validate_response (some hello_frame) (some hello_frame) ≡ ErrorCode.none
unfolding validate_response check_response match_response validate_header validate_fields
    valid_message_type expected_response_type
hello_frame-answered = refl

error_code_decode-encode_example :
    let r = error_code_encode ErrorCode.busy (some (0 ∷ 0 ∷ [])) 2 in
    ((r.0 ≡ true) ↔ (IsCode ErrorCode.busy × (true ≡ true) × (2 ≤ 2)))
    × (r.0 ≡ false → r.1 ≡ some (0 ∷ 0 ∷ []))
    × (r.0 ≡ true
        → 2 ≤ 2
        → error_code_decode r.1 2 (some 0) (some 0) ≡ record {
          status = DecodeStatus.ok;
          decoded_error_code = some ErrorCode.busy;
          parse_error_code = some ErrorCode.none;
        })
error_code_decode-encode_example = error_code_decode-encode ErrorCode.busy 2 (some (0 ∷ 0 ∷ [])) 0 0
