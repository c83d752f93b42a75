-- ===== src/Frame.antt =====
-- The framed protocol of firmware/components/airdap_frame: its constants, the decoded header and
-- `validate_header`. The children hold the wire codec, the sequence validator and their theorems.
pub mod ErrorCode
pub mod MessageType
pub mod Bytes
pub mod Codec
pub mod Sequence
pub mod Response
pub mod ErrorPayload
mod Examples
use ErrorCode
use MessageType
use MessageType.{valid_message_type}
use air_dap.Prelude.{
  ℕ, ◌^◌, ◌≤◌, ◌<◌, ◌≡◌, arith, Option, none, some, Bool, not, ◌&&◌, ltb, ◌==◌, if◌then◌else◌,
}

-- "ADAP" in ASCII.
abbrev pub magic_value : ℕ
magic_value = 0x41444150

abbrev pub header_size : ℕ
header_size = 20

abbrev pub protocol_version : ℕ
protocol_version = 1

abbrev pub max_payload_size : ℕ
max_payload_size = 4096

abbrev pub dap_request_max_payload_size : ℕ
dap_request_max_payload_size = 508

abbrev pub initial_session_id : ℕ
initial_session_id = 1

abbrev pub initial_sequence : ℕ
initial_sequence = 1

abbrev pub error_code_size : ℕ
error_code_size = 2

pub record Header : Type 0 where
  pub magic : ℕ
  pub version : ℕ
  pub typ : ℕ
  pub flags : ℕ
  pub session_id : ℕ
  pub sequence : ℕ
  pub payload_length : ℕ
  pub reserved : ℕ

-- The ranges that the C types of the fields impose.
pub record HeaderFits (h : Header) : Type 0 where
  pub magic_u32 : h.magic < 2 ^ 32
  pub version_u8 : h.version < 2 ^ 8
  pub typ_u8 : h.typ < 2 ^ 8
  pub flags_u16 : h.flags < 2 ^ 16
  pub session_id_u32 : h.session_id < 2 ^ 32
  pub sequence_u32 : h.sequence < 2 ^ 32
  pub payload_length_u16 : h.payload_length < 2 ^ 16
  pub reserved_u16 : h.reserved < 2 ^ 16

-- `(airdap_frame_header_t) {0}`
abbrev pub zero_header : Header
zero_header = record {
  magic = 0;
  version = 0;
  typ = 0;
  flags = 0;
  session_id = 0;
  sequence = 0;
  payload_length = 0;
  reserved = 0;
}

-- `validate_header` at a pointer that is not `NULL`.
unfoldable pub validate_fields : Header → ℕ
unfolding valid_message_type
validate_fields h =
    if not (h.magic == magic_value)
    then ErrorCode.invalid_magic
    else if not (h.version == protocol_version)
    then ErrorCode.unsupported_version
    else if not (valid_message_type h.typ)
    then ErrorCode.unsupported_type
    else if not (h.flags == 0)
    then ErrorCode.invalid_flags
    else if not (h.reserved == 0)
    then ErrorCode.invalid_reserved
    else if h.session_id == 0
    then ErrorCode.session_mismatch
    else if h.sequence == 0
    then ErrorCode.sequence_out_of_order
    else if ltb max_payload_size h.payload_length
    then ErrorCode.payload_too_large
    else if h.typ == MessageType.dap_request && ltb dap_request_max_payload_size h.payload_length
    then ErrorCode.payload_too_large
    else ErrorCode.none

unfoldable pub validate_header : Option Header → ℕ
validate_header none = ErrorCode.internal
validate_header (some h) = validate_fields h

-- What `validate_header` accepts, said without its tests.
pub record IsWellFormed (h : Header) : Type 0 where
  pub magic_lem : h.magic ≡ magic_value
  pub version_lem : h.version ≡ protocol_version
  pub typ_low : 0 < h.typ
  pub typ_high : h.typ < 9
  pub flags_lem : h.flags ≡ 0
  pub reserved_lem : h.reserved ≡ 0
  pub session_id_pos : 0 < h.session_id
  pub sequence_pos : 0 < h.sequence
  pub payload_bound : h.payload_length ≤ 4096
  pub dap_request_bound : h.typ ≡ MessageType.dap_request → h.payload_length ≤ 508

pub validate_fields-IsWellFormed :
    (h : Header) → validate_fields h ≡ ErrorCode.none → IsWellFormed h
unfolding validate_fields
validate_fields-IsWellFormed h e = ground arith

pub IsWellFormed-validate_fields :
    (h : Header) → IsWellFormed h → validate_fields h ≡ ErrorCode.none
unfolding validate_fields
IsWellFormed-validate_fields h w = ground arith
