-- ===== src/Dap/Processor.antt =====
-- The processor of DAP commands of firmware/components/dap_protocol/dap_protocol.c: its types, the accesses
-- to the buffers, and single transfers. The children hold the commands.
pub mod Transfer
pub mod Block
pub mod Sequence
pub mod Packet
use air_dap.Dap.{byte}
use air_dap.Prelude.{
  ℕ, zero, suc, ◌+◌, ◌*◌, ◌/◌, ◌%◌, ◌^◌, bit_and, bit_or, Bool, true, false, not, Option, none,
  some, List, [], ◌∷◌, write_at, ltb, ◌==◌, if◌then◌else◌,
}

abbrev pub id_invalid : ℕ
id_invalid = 0xff

abbrev pub dap_ok : ℕ
dap_ok = 0x00

abbrev pub dap_error : ℕ
dap_error = 0xff

abbrev pub transfer_ap : ℕ
transfer_ap = 1

abbrev pub transfer_match_mask : ℕ
transfer_match_mask = 32

abbrev pub transfer_timestamp : ℕ
transfer_timestamp = 128

abbrev pub transfer_ok : ℕ
transfer_ok = 1

abbrev pub transfer_error : ℕ
transfer_error = 8

abbrev pub transfer_mismatch : ℕ
transfer_mismatch = 16

abbrev pub port_disabled : ℕ
port_disabled = 0

abbrev pub port_swd : ℕ
port_swd = 1

-- `airdap_dap_backend_t`: functions on the backend's own state, each of which may be `NULL`. What a
-- function leaves behind an output pointer is returned.
pub record Backend (S : Type 0) : Type 0 where
  pub connect : Option (S → Bool × S)
  pub disconnect : Option (S → S)
  pub set_clock : Option (ℕ → S → Bool × S)
  pub configure_transfer : Option (ℕ → ℕ → S → Bool × S)
  pub configure_swd : Option (ℕ → Bool → S → Bool × S)
  -- Access port or debug port, read or write, address, data, status.
  pub transfer : Option (Bool → Bool → ℕ → ℕ → ℕ → S → Bool × ℕ × ℕ × S)
  pub write_sequence : Option (List ℕ → ℕ → S → Bool × S)
  pub read_sequence : Option (ℕ → S → Bool × List ℕ × S)
  pub swj_pins : Option (ℕ → ℕ → ℕ → S → Bool × ℕ × S)
  pub reset_target : Option (S → Bool × S)
  pub delay_us : Option (ℕ → S → S)
  pub host_status : Option (ℕ → Bool → S → S)
  -- Whether the debugger is connected, the request with its length, the response with its capacity.
  pub vendor_command : Option (Bool → List ℕ → ℕ → List ℕ → ℕ → S → ℕ × List ℕ × S)

-- `airdap_dap_processor_t` without the backend. The strings are without their final NUL.
pub record DapProcessor : Type 0 where
  pub serial_number : List ℕ
  pub firmware_version : List ℕ
  pub match_mask : ℕ
  pub match_retries : ℕ
  pub selected_port : ℕ

-- The value returned, with the response buffer, the processor and the backend behind the pointers.
pub record Outcome (S : Type 0) : Type 0 where
  pub size : ℕ
  pub response : List ℕ
  pub processor : DapProcessor
  pub backend : S

abbrev pub text_or_empty : Option (List ℕ) → List ℕ
text_or_empty none = []
text_or_empty (some text) = text

unfoldable pub processor_init :
    Option DapProcessor → Option (List ℕ) → Option (List ℕ) → Option DapProcessor
processor_init none serial_number firmware_version = none
processor_init (some _) serial_number firmware_version = some (record {
  serial_number = text_or_empty serial_number;
  firmware_version = text_or_empty firmware_version;
  match_mask = 0xffff_ffff;
  match_retries = 0;
  selected_port = 0;
})

unfoldable pub read_u32 : List ℕ → ℕ → ℕ
read_u32 bytes i =
    bit_or
      (bit_or (bit_or (byte bytes i) (byte bytes (i + 1) * 2 ^ 8 % 2 ^ 32))
        (byte bytes (i + 2) * 2 ^ 16 % 2 ^ 32))
      (byte bytes (i + 3) * 2 ^ 24 % 2 ^ 32)

abbrev pub u16_le : ℕ → List ℕ
u16_le value = value % 2 ^ 8 ∷ value / 2 ^ 8 % 2 ^ 8 ∷ []

abbrev pub u32_le : ℕ → List ℕ
u32_le value =
    value % 2 ^ 8 ∷ value / 2 ^ 8 % 2 ^ 8 ∷ value / 2 ^ 16 % 2 ^ 8 ∷ value / 2 ^ 24 % 2 ^ 8 ∷ []

unfoldable pub write_u16 : List ℕ → ℕ → ℕ → List ℕ
write_u16 buffer i value = write_at i (u16_le value) buffer

unfoldable pub write_u32 : List ℕ → ℕ → ℕ → List ℕ
write_u32 buffer i value = write_at i (u32_le value) buffer

-- `invalid_response` with a buffer that is not `NULL`.
unfoldable pub invalid_response : List ℕ → ℕ → ℕ × List ℕ
invalid_response response capacity =
    if ltb 0 capacity then (1, write_at 0 (id_invalid ∷ []) response) else (0, response)

unfoldable pub status_response : ℕ → Bool → List ℕ → ℕ → ℕ × List ℕ
status_response command success response capacity =
    if ltb capacity 2
    then invalid_response response capacity
    else (2, write_at 0 (command ∷ (if success then dap_ok else dap_error) ∷ []) response)

-- The tests of a transfer's request byte.
abbrev pub has_bit : ℕ → ℕ → Bool
has_bit request bit = not (bit_and request bit == 0)

module _ {S : Type 0} (backend : Backend S) where
  -- Whether the transfer was acknowledged, with the data and the status.
  unfoldable pub transfer_once : ℕ → ℕ → ℕ → S → Bool × ℕ × ℕ × S
  transfer_once transfer_request word status s = elim backend.transfer [
    | none ↦ (false, word, transfer_error, s)
    | some transfer ↦
        let (done, word', status', s') =
          transfer (has_bit transfer_request transfer_ap) (has_bit transfer_request 2)
            (bit_and transfer_request 12) word status s in
        if done
        then (status' == transfer_ok, word', status', s')
        else (false, word', transfer_error, s')
  ]

  -- The comparison loop of a match; the first argument counts the attempts left.
  unfoldable pub match_loop : ℕ → ℕ → ℕ → ℕ → ℕ → S → Bool × ℕ × S
  match_loop zero transfer_request mask wanted status s = (false, status, s)
  match_loop (suc left) transfer_request mask wanted status s =
      let (done, actual, status', s') = transfer_once transfer_request 0 status s in
      let rest = match_loop left transfer_request mask wanted status' s' in
      if not done
      then (false, status', s')
      else if bit_and actual mask == bit_and wanted mask
      then (true, status', s')
      else rest
