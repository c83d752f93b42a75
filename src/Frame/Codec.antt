-- ===== src/Frame/Codec.antt =====
-- `airdap_frame_decode` and `airdap_frame_encode` of firmware/components/airdap_frame/airdap_frame.c.
-- A pointer is an `Option`; `none` is `NULL`. A pointer into a buffer is the rest of the buffer.
pub mod Reading
pub mod Writing
pub mod RoundTrip
pub mod Streaming
use air_dap.Frame.ErrorCode
use air_dap.Frame.{Header, validate_header, header_size, zero_header}
use air_dap.Frame.Bytes.{read_u16_be, read_u32_be, write_u16_be, write_u32_be}
use air_dap.Prelude.{
  ℕ, Bool, ◌+◌, ◌&&◌, not, Option, none, some, List, [], ◌∷◌, is_some, get_or, take, drop, write_at,
  ltb, ltb, ◌==◌, if◌then◌else◌,
}

pub data DecodeStatus : Type 0 where
  ok need_more_data invalid_frame : DecodeStatus

-- The four output pointers with what they point to.
pub record DecodeOut : Type 0 where
  pub header : Option Header
  pub payload : Option (Option (List ℕ))
  pub frame_size : Option ℕ
  pub error_code : Option ℕ

abbrev pub all_given : DecodeOut → Bool
all_given out =
    is_some out.header && is_some out.payload && is_some out.frame_size && is_some out.error_code

-- The outputs after a failure with the given code.
abbrev pub failed : ℕ → DecodeOut
failed code = record {
  header = some zero_header;
  payload = some none;
  frame_size = some 0;
  error_code = some code;
}

-- The bytes behind a pointer; `NULL` is never read.
abbrev pub contents : Option (List ℕ) → List ℕ
contents none = []
contents (some bytes) = bytes

-- The `candidate` of `airdap_frame_decode`.
unfoldable pub read_header : List ℕ → Header
read_header input = record {
  magic = read_u32_be input 0;
  version = get_or input 4 0;
  typ = get_or input 5 0;
  flags = read_u16_be input 6;
  session_id = read_u32_be input 8;
  sequence = read_u32_be input 12;
  payload_length = read_u16_be input 16;
  reserved = read_u16_be input 18;
}

-- From the check of the candidate on.
unfoldable pub decode_candidate : List ℕ → ℕ → Header → DecodeStatus × DecodeOut
decode_candidate input input_size candidate =
    let validation_error = validate_header (some candidate) in
    let required_size = header_size + candidate.payload_length in
    if not (validation_error == ErrorCode.none)
    then (DecodeStatus.invalid_frame, failed validation_error)
    else if ltb input_size required_size
    then (DecodeStatus.need_more_data, failed ErrorCode.truncated)
    else (
      DecodeStatus.ok,
      record {
        header = some candidate;
        payload = some (some (drop header_size input));
        frame_size = some required_size;
        error_code = some ErrorCode.none;
      },
    )

unfoldable pub decode : Option (List ℕ) → ℕ → DecodeOut → DecodeStatus × DecodeOut
decode input input_size out =
    if not (all_given out)
    then (DecodeStatus.invalid_frame, out)
    else if not (is_some input) && ltb 0 input_size
    then (DecodeStatus.invalid_frame, failed ErrorCode.internal)
    else if ltb input_size header_size
    then (DecodeStatus.need_more_data, failed ErrorCode.truncated)
    else decode_candidate (contents input) input_size (read_header (contents input))

pub record EncodeOut : Type 0 where
  pub error : ℕ
  pub output : Option (List ℕ)
  pub encoded_size : Option ℕ

-- The writes at the end of `airdap_frame_encode`.
unfoldable pub write_header : Header → List ℕ → List ℕ
write_header h output =
    let a = write_u32_be output 0 h.magic in
    let b = write_at 4 (h.version ∷ []) a in
    let c = write_at 5 (h.typ ∷ []) b in
    let d = write_u16_be c 6 h.flags in
    let e = write_u32_be d 8 h.session_id in
    let f = write_u32_be e 12 h.sequence in
    let g = write_u16_be f 16 h.payload_length in write_u16_be g 18 h.reserved

unfoldable pub write_frame : Header → Option (List ℕ) → List ℕ → List ℕ
unfolding write_header
write_frame h payload output =
    let with_header = write_header h output in
    if ltb 0 h.payload_length
    then write_at header_size (take h.payload_length (contents payload)) with_header
    else with_header

-- From the check of the payload on.
unfoldable pub encode_valid : Header → Option (List ℕ) → Option (List ℕ) → ℕ → EncodeOut
encode_valid h payload output output_capacity =
    let required_size = header_size + h.payload_length in
    if ltb 0 h.payload_length && not (is_some payload)
    then record { error = ErrorCode.internal; output = output; encoded_size = some 0 }
    else if ltb output_capacity required_size
    then record { error = ErrorCode.truncated; output = output; encoded_size = some required_size }
    else if not (is_some output)
    then record { error = ErrorCode.internal; output = output; encoded_size = some required_size }
    else record {
      error = ErrorCode.none;
      output = some (write_frame h payload (contents output));
      encoded_size = some required_size;
    }

abbrev pub encode_checked : ℕ → Option Header → Option (List ℕ) → Option (List ℕ) → ℕ → EncodeOut
encode_checked validation_error none payload output output_capacity = record {
  error = validation_error;
  output = output;
  encoded_size = some 0;
}
encode_checked validation_error (some h) payload output output_capacity =
    if not (validation_error == ErrorCode.none)
    then record { error = validation_error; output = output; encoded_size = some 0 }
    else encode_valid h payload output output_capacity

unfoldable pub encode : Option Header → Option (List ℕ) → Option (List ℕ) → ℕ → Option ℕ → EncodeOut
encode header payload output output_capacity encoded_size =
    if not (is_some encoded_size)
    then record { error = ErrorCode.internal; output = output; encoded_size = encoded_size }
    else encode_checked (validate_header header) header payload output output_capacity
