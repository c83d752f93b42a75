-- ===== src/Dap/Request.antt =====
-- `airdap_dap_request_size` of firmware/components/dap_protocol/dap_protocol.c: the length of the first
-- request in a buffer, 0 where bytes are missing, SIZE_MAX where it is malformed.
pub mod Bounds
pub mod Stable
use air_dap.Dap.{
  byte, read_u16, packet_size, size_max, id_info, id_host_status, id_connect, id_disconnect,
  id_transfer_configure, id_transfer, id_transfer_block, id_write_abort, id_delay, id_reset_target,
  id_swj_pins, id_swj_clock, id_swj_sequence, id_swd_configure, id_swd_sequence, id_ota_query,
  id_ota_begin, id_ota_write, id_ota_commit, id_ota_abort, id_ota_reboot, transfer_read,
  transfer_match_value, ota_write_header_size, ota_max_write_size,
}
use air_dap.Prelude.{
  ℕ, zero, suc, ◌+◌, ◌-◌, ◌*◌, ◌/◌, bit_and, not, ◌||◌, ◌&&◌, Option, none, some, List, ltb, leb,
  ◌==◌, if◌then◌else◌, Bool,
}

-- `available_length >= length ? length : 0U`
abbrev pub when_available : ℕ → ℕ → ℕ
when_available available length = if leb length available then length else 0

-- The bytes of one entry of a TRANSFER request that begins with `transfer_request`.
unfoldable pub has_data : ℕ → Bool
has_data transfer_request =
    bit_and transfer_request transfer_read == 0
    || not (bit_and transfer_request transfer_match_value == 0)

-- The `for` over the transfers of a TRANSFER request; the first argument counts those left.
unfoldable pub transfer_size : ℕ → List ℕ → ℕ → ℕ → ℕ
transfer_size zero request available length = length
transfer_size (suc left) request available length =
    let entry = has_data (byte request length) in
    let length' = if entry then length + 1 + 4 else length + 1 in
    let rest = transfer_size left request available length' in
    if leb available length
    then 0
    else if entry && ltb (size_max - 4) (length + 1)
    then size_max
    else if ltb packet_size length'
    then size_max
    else if ltb available length'
    then 0
    else rest

-- The data bytes of one sequence of a SWD_SEQUENCE request, by its info byte.
unfoldable pub sequence_bytes : ℕ → ℕ
sequence_bytes sequence_info =
    let bit_count = if bit_and sequence_info 0x3f == 0 then 64 else bit_and sequence_info 0x3f in
    (bit_count + 7) / 8

-- The `for` over the sequences of a SWD_SEQUENCE request.
unfoldable pub sequence_size : ℕ → List ℕ → ℕ → ℕ → ℕ
sequence_size zero request available length = length
sequence_size (suc left) request available length =
    let sequence_info = byte request length in
    let output = bit_and sequence_info 0x80 == 0 in
    let length' = if output then length + 1 + sequence_bytes sequence_info else length + 1 in
    let rest = sequence_size left request available length' in
    if leb available length
    then 0
    else if output && ltb packet_size length'
    then size_max
    else if output && ltb available length'
    then 0
    else rest

-- The cases of the `switch` that read more than the command.
unfoldable pub ota_write_size : List ℕ → ℕ → ℕ
ota_write_size request available =
    let length = read_u16 request 5 in
    if ltb available ota_write_header_size
    then 0
    else if ltb ota_max_write_size length
    then size_max
    else when_available available (length + ota_write_header_size)

unfoldable pub swj_sequence_size : List ℕ → ℕ → ℕ
swj_sequence_size request available =
    let count = byte request 1 in
    let length = 2 + ((if count == 0 then 256 else count) + 7) / 8 in
    if ltb available 2
    then 0
    else if ltb packet_size length
    then size_max
    else when_available available length

unfoldable pub transfer_block_size : List ℕ → ℕ → ℕ
transfer_block_size request available =
    let writes = bit_and (byte request 4) transfer_read == 0 in
    let count = read_u16 request 2 in
    let length = if writes then 5 + count * 4 else 5 in
    if ltb available 5
    then 0
    else if writes && ltb ((size_max - 5) / 4) count
    then size_max
    else if ltb packet_size length
    then size_max
    else when_available available length

unfoldable pub transfer_request_size : List ℕ → ℕ → ℕ
transfer_request_size request available =
    let size = transfer_size (byte request 2) request available 3 in
    if ltb available 3 then 0 else size

unfoldable pub sequence_request_size : List ℕ → ℕ → ℕ
sequence_request_size request available =
    let size = sequence_size (byte request 1) request available 2 in
    if ltb available 2 then 0 else size

-- The commands whose length the command alone decides.
unfoldable pub fixed_length : ℕ → ℕ
fixed_length command =
    if command == id_info || command == id_connect || command == id_swd_configure
    then 2
    else if command == id_host_status || command == id_delay
    then 3
    else if command == id_transfer_configure || command == id_write_abort
    then 6
    else if command == id_swj_pins
    then 7
    else if command == id_swj_clock || command == id_ota_begin
    then 5
    else 1

unfoldable pub request_size_of : List ℕ → ℕ → ℕ
request_size_of request available =
    let command = byte request 0 in
    if command == id_ota_write
    then ota_write_size request available
    else if command == id_swj_sequence
    then swj_sequence_size request available
    else if command == id_transfer_block
    then transfer_block_size request available
    else if command == id_transfer
    then transfer_request_size request available
    else if command == id_swd_sequence
    then sequence_request_size request available
    else when_available available (fixed_length command)

unfoldable pub request_size : Option (List ℕ) → ℕ → ℕ
request_size none available = 0
request_size (some request) available =
    if available == 0 then 0 else request_size_of request available
