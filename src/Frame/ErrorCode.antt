-- ===== src/Frame/ErrorCode.antt =====
-- `airdap_frame_error_code_t` of firmware/components/airdap_frame/include/airdap_frame.h. A C enum
-- holds any integer that is cast to it, so a code is a number.
use Prim.Native.Nat.{ℕ}

abbrev pub none : ℕ
none = 0x0000

abbrev pub truncated : ℕ
truncated = 0x0001

abbrev pub payload_too_large : ℕ
payload_too_large = 0x0002

abbrev pub unsupported_version : ℕ
unsupported_version = 0x0003

abbrev pub unsupported_type : ℕ
unsupported_type = 0x0004

abbrev pub invalid_magic : ℕ
invalid_magic = 0x0005

abbrev pub invalid_flags : ℕ
invalid_flags = 0x0006

abbrev pub invalid_reserved : ℕ
invalid_reserved = 0x0007

abbrev pub session_mismatch : ℕ
session_mismatch = 0x0010

abbrev pub sequence_duplicate : ℕ
sequence_duplicate = 0x0011

abbrev pub sequence_stale : ℕ
sequence_stale = 0x0012

abbrev pub sequence_out_of_order : ℕ
sequence_out_of_order = 0x0013

abbrev pub response_mismatch : ℕ
response_mismatch = 0x0014

abbrev pub busy : ℕ
busy = 0x0020

abbrev pub unauthenticated : ℕ
unauthenticated = 0x0021

abbrev pub timeout : ℕ
timeout = 0x0022

abbrev pub invalid_argument : ℕ
invalid_argument = 0x0023

abbrev pub internal : ℕ
internal = 0x00ff
