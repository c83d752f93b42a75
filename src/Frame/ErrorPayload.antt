-- ===== src/Frame/ErrorPayload.antt =====
-- The two-byte payload of an ERROR frame: `airdap_frame_error_code_encode` and
-- `airdap_frame_error_code_decode` of firmware/components/airdap_frame/airdap_frame.c.
use air_dap.Frame.ErrorCode
use air_dap.Frame.{error_code_size}
use air_dap.Frame.Bytes.{read_u16_be, write_u16_be, join_u16}
use air_dap.Frame.Codec.{DecodeStatus, contents}
use air_dap.Prelude.{
  ℕ, ◌/◌, ◌%◌, ◌^◌, ◌≤◌, ◌<◌, ◌≡◌, ◌↔◌, arith, Option, none, some, Bool, true, false, not, ◌&&◌,
  ◌||◌, ltb, ◌==◌, if◌then◌else◌, is_some, List, [], ◌∷◌, length, ◌⊎◌, ◌≢◌,
}

unfoldable pub valid_error_code : ℕ → Bool
valid_error_code code =
    code == ErrorCode.truncated
    || code == ErrorCode.payload_too_large
    || code == ErrorCode.unsupported_version
    || code == ErrorCode.unsupported_type
    || code == ErrorCode.invalid_magic
    || code == ErrorCode.invalid_flags
    || code == ErrorCode.invalid_reserved
    || code == ErrorCode.session_mismatch
    || code == ErrorCode.sequence_duplicate
    || code == ErrorCode.sequence_stale
    || code == ErrorCode.sequence_out_of_order
    || code == ErrorCode.response_mismatch
    || code == ErrorCode.busy
    || code == ErrorCode.unauthenticated
    || code == ErrorCode.timeout
    || code == ErrorCode.invalid_argument
    || code == ErrorCode.internal

unfoldable pub error_code_encode : ℕ → Option (List ℕ) → ℕ → Bool × Option (List ℕ)
error_code_encode code output output_capacity =
    if not (valid_error_code code) || not (is_some output) || ltb output_capacity error_code_size
    then (false, output)
    else (true, some (write_u16_be (contents output) 0 (code % 2 ^ 16)))

-- The status, and the two output pointers with what they point to.
pub record ErrorOut : Type 0 where
  pub status : DecodeStatus
  pub decoded_error_code : Option ℕ
  pub parse_error_code : Option ℕ

abbrev rejected : DecodeStatus → ℕ → ErrorOut
rejected status code = record {
  status = status;
  decoded_error_code = some ErrorCode.none;
  parse_error_code = some code;
}

unfoldable pub error_code_decode : Option (List ℕ) → ℕ → Option ℕ → Option ℕ → ErrorOut
error_code_decode payload payload_size decoded parse =
    let error_code = read_u16_be (contents payload) 0 in
    if not (is_some decoded) || not (is_some parse)
    then record {
      status = DecodeStatus.invalid_frame;
      decoded_error_code = decoded;
      parse_error_code = parse;
    }
    else if not (is_some payload) && ltb 0 payload_size
    then rejected DecodeStatus.invalid_frame ErrorCode.internal
    else if ltb payload_size error_code_size
    then rejected DecodeStatus.need_more_data ErrorCode.truncated
    else if ltb error_code_size payload_size
    then rejected DecodeStatus.invalid_frame ErrorCode.payload_too_large
    else if not (valid_error_code error_code)
    then rejected DecodeStatus.invalid_frame ErrorCode.unsupported_type
    else record {
      status = DecodeStatus.ok;
      decoded_error_code = some error_code;
      parse_error_code = some ErrorCode.none;
    }

valid_error_code-lt : (code : ℕ) → valid_error_code code ≡ true → (0 < code) × (code < 2 ^ 8)
unfolding valid_error_code
valid_error_code-lt code h = ground arith

written :
    (code a b : ℕ) (rest : List ℕ)
    → code < 2 ^ 16
    → read_u16_be (write_u16_be (a ∷ b ∷ rest) 0 (code % 2 ^ 16)) 0 ≡ code
unfolding read_u16_be write_u16_be
written code a b rest h = omega (
  arith,
  join_u16 (code % 2 ^ 16 / 2 ^ 8 % 2 ^ 8) (code % 2 ^ 16 % 2 ^ 8) (omega arith) (omega arith),
)

-- The protocol's error codes, by their numbers: 1 to 7 on the frame, 0x10 to 0x14 on the session and
-- the sequence, 0x20 to 0x23 on the service, and 0xff.
abbrev pub IsCode : ℕ → Type 0
IsCode code =
    ((1 ≤ code) × (code ≤ 7))
    ⊎ ((0x10 ≤ code) × (code ≤ 0x14))
    ⊎ ((0x20 ≤ code) × (code ≤ 0x23))
    ⊎ (code ≡ 0xff)

valid_error_code-IsCode : (code : ℕ) → valid_error_code code ≡ true → IsCode code
unfolding valid_error_code
valid_error_code-IsCode code h = ground arith

IsCode-valid_error_code : (code : ℕ) → IsCode code → valid_error_code code ≡ true
unfolding valid_error_code
IsCode-valid_error_code code h = ground arith

error_code_encode_iff :
    (code capacity : ℕ) (output : Option (List ℕ))
    → ((error_code_encode code output capacity).0 ≡ true)
      ↔ (IsCode code × (is_some output ≡ true) × (2 ≤ capacity))
unfolding error_code_encode
error_code_encode_iff code capacity output = (
  λ e. ground (arith, valid_error_code-IsCode code),
  λ h. ground (arith, IsCode-valid_error_code code h.0),
)

error_code_encode-refused :
    (code capacity : ℕ) (output : Option (List ℕ))
    → (error_code_encode code output capacity).0 ≡ false
    → (error_code_encode code output capacity).1 ≡ output
unfolding error_code_encode
error_code_encode-refused code capacity output e = ground arith

decodes_back :
    (code capacity : ℕ) (output : Option (List ℕ)) (old_decoded old_parse : ℕ)
    → (error_code_encode code output capacity).0 ≡ true
    → 2 ≤ length (contents output)
    → error_code_decode
        (error_code_encode code output capacity).1
        2
        (some old_decoded)
        (some old_parse)
      ≡ record {
        status = DecodeStatus.ok;
        decoded_error_code = some code;
        parse_error_code = some ErrorCode.none;
      }
unfolding error_code_encode error_code_decode
decodes_back code capacity none old_decoded old_parse e room = absurd (omega (arith, room))
decodes_back code capacity (some []) old_decoded old_parse e room = absurd (omega (arith, room))
decodes_back code capacity (some (a ∷ [])) old_decoded old_parse e room =
    absurd (omega (arith, room))
decodes_back code capacity (some (a ∷ b ∷ rest)) old_decoded old_parse e room =
    ground (arith, valid_error_code-lt code, written code a b rest)

-- A code is encoded exactly when it is one of the protocol's numbers, the pointer is given and the
-- capacity is two bytes or more, and nothing is written otherwise; where it is encoded and the buffer
-- has the two bytes, decoding them gives the code back with no parse error.
pub error_code_decode-encode :
    (code capacity : ℕ) (output : Option (List ℕ)) (old_decoded old_parse : ℕ)
    → let r = error_code_encode code output capacity in
      ((r.0 ≡ true) ↔ (IsCode code × (is_some output ≡ true) × (2 ≤ capacity)))
      × (r.0 ≡ false → r.1 ≡ output)
      × (r.0 ≡ true
          → 2 ≤ length (contents output)
          → error_code_decode r.1 2 (some old_decoded) (some old_parse) ≡ record {
            status = DecodeStatus.ok;
            decoded_error_code = some code;
            parse_error_code = some ErrorCode.none;
          })
error_code_decode-encode code capacity output old_decoded old_parse = (
  error_code_encode_iff code capacity output,
  error_code_encode-refused code capacity output,
  decodes_back code capacity output old_decoded old_parse,
)

-- With both output pointers given, a decoded code other than NONE is reported only for a payload of
-- exactly two bytes that hold a code of the protocol; in every other case the decoded code is NONE and
-- the parse error is not.
pub error_code_decode_cases :
    (payload : Option (List ℕ)) (payload_size old_decoded old_parse : ℕ)
    → let r = error_code_decode payload payload_size (some old_decoded) (some old_parse) in
      ((r.status ≡ DecodeStatus.ok)
        × (payload_size ≡ 2)
        × (valid_error_code (read_u16_be (contents payload) 0) ≡ true)
        × (r.decoded_error_code ≡ some (read_u16_be (contents payload) 0))
        × (r.parse_error_code ≡ some ErrorCode.none))
      ⊎ ((r.status ≢ DecodeStatus.ok)
          × (r.decoded_error_code ≡ some ErrorCode.none)
          × (r.parse_error_code ≢ some ErrorCode.none))
unfolding error_code_decode
error_code_decode_cases payload payload_size old_decoded old_parse = ground arith
