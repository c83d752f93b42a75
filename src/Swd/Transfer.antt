-- ===== src/Swd/Transfer.antt =====
-- The functions of firmware/components/swd_engine/swd_protocol.c.
use air_dap.Swd.{
  EspError, ok, invalid_arg, invalid_response, invalid_crc, timed_out, SwdIo, SwdRequest, Bus, done,
  set_host_output, write_bits, read_bits, turnaround, bind, check, is_ok,
}
use air_dap.Prelude.{
  ℕ, zero, suc, ◌+◌, ◌-◌, ◌*◌, ◌/◌, ◌%◌, ◌^◌, bit_and, bit_or, bit_xor, Bool, true, false, not,
  ◌&&◌, ◌||◌, Option, none, some, is_some, ltb, leb, ◌==◌, if◌then◌else◌,
}

abbrev pub request_bits : ℕ
request_bits = 8

abbrev pub ack_bits : ℕ
ack_bits = 3

abbrev pub data_bits : ℕ
data_bits = 33

abbrev pub write_guard_bits : ℕ
write_guard_bits = 1

abbrev pub write_embedded_idle_cycles : ℕ
write_embedded_idle_cycles = 6

abbrev pub write_frame_bits : ℕ
write_frame_bits = write_guard_bits + data_bits + write_embedded_idle_cycles

abbrev pub connect_idle_cycles : ℕ
connect_idle_cycles = 8

abbrev pub connect_wait_retries : ℕ
connect_wait_retries = 5

abbrev pub port_dp : ℕ
port_dp = 0

abbrev pub port_ap : ℕ
port_ap = 1

abbrev pub swd_write : ℕ
swd_write = 0

abbrev pub swd_read : ℕ
swd_read = 1

abbrev pub ack_none : ℕ
ack_none = 0

abbrev pub ack_ok : ℕ
ack_ok = 1

abbrev pub ack_wait : ℕ
ack_wait = 2

abbrev pub ack_fault : ℕ
ack_fault = 4

-- The `while` of `parity32`; 32 rounds are enough for a `uint32_t`.
unfoldable pub parity_loop : ℕ → ℕ → ℕ → ℕ
parity_loop zero value parity = parity
parity_loop (suc fuel) value parity =
    let rest = parity_loop fuel (value / 2) (bit_xor parity (bit_and value 1)) in
    if value == 0 then parity else rest

unfoldable pub parity32 : ℕ → ℕ
parity32 value = parity_loop 32 value 0

unfoldable pub request_is_valid : Option SwdRequest → Bool
request_is_valid none = false
request_is_valid (some request) =
    (request.port == port_dp || request.port == port_ap)
    && (request.direction == swd_write || request.direction == swd_read)
    && leb request.address 0xc
    && bit_and request.address 0x3 == 0

unfoldable pub io_is_valid : Option SwdIo → Bool
io_is_valid none = false
io_is_valid (some io) =
    io.has_set_host_output && io.has_write_bits && io.has_read_bits && io.has_turnaround

unfoldable pub encode_request : SwdRequest → ℕ
encode_request request =
    let address_bit_2 = bit_and (request.address / 2 ^ 2) 1 in
    let address_bit_3 = bit_and (request.address / 2 ^ 3) 1 in
    let request_parity =
      bit_xor (bit_xor (bit_xor request.port request.direction) address_bit_2) address_bit_3 in
    bit_or
      (bit_or
        (bit_or
          (bit_or (bit_or (bit_or 1 (request.port * 2)) (request.direction * 2 ^ 2))
            (address_bit_2 * 2 ^ 3))
          (address_bit_3 * 2 ^ 4))
        (request_parity * 2 ^ 5))
      (2 ^ 7)
    % 2 ^ 8

-- The size of the next transaction of `write_idle_cycles`.
unfoldable pub idle_chunk : ℕ → ℕ
idle_chunk remaining =
    if remaining == 65
    then 63
    else if remaining == 1
    then 2
    else if ltb 64 remaining
    then 64
    else remaining

-- The `while` of `write_idle_cycles`; the fuel is the number of cycles.
unfoldable pub idle_loop : ℕ → ℕ → Bus EspError
idle_loop zero remaining = done ok
idle_loop (suc fuel) remaining =
    let chunk = idle_chunk remaining in
    let rest = idle_loop fuel (if ltb remaining chunk then 0 else remaining - chunk) in
    if not (ltb 0 remaining) then done ok else write_bits 0 chunk (λ error. check error rest)

unfoldable pub write_idle_cycles : ℕ → Bus EspError
write_idle_cycles idle_cycles = idle_loop idle_cycles idle_cycles

unfoldable pub write_data_phase_and_idle : SwdIo → ℕ → Bus EspError
write_data_phase_and_idle io bits =
    let remaining_idle_cycles =
      if leb write_embedded_idle_cycles io.idle_cycles
      then io.idle_cycles - write_embedded_idle_cycles
      else 0 in
    write_bits (bits * 2 ^ write_guard_bits % 2 ^ 64) write_frame_bits
      λ error. check error (write_idle_cycles remaining_idle_cycles)

unfoldable pub restore_host_and_idle : SwdIo → Bus EspError
restore_host_and_idle io =
    turnaround true
      λ error. check error (write_idle_cycles (if io.idle_cycles == 0 then 1 else io.idle_cycles))

-- The read whose bits are ignored, in both functions below.
unfoldable pub skip_data : SwdIo → Bus EspError
skip_data io = read_bits data_bits λ error _.
    if is_ok error
    then restore_host_and_idle io
    else bind (restore_host_and_idle io) (λ _. done error)

unfoldable pub complete_protocol_error : SwdIo → Bus EspError
complete_protocol_error io = skip_data io

unfoldable pub complete_error_data_phase : SwdIo → SwdRequest → Bus EspError
complete_error_data_phase io request =
    if not io.data_phase
    then restore_host_and_idle io
    else if request.direction == swd_read
    then skip_data io
    else turnaround true (λ error. check error (write_data_phase_and_idle io 0))

-- The result of a transfer, with what `data` and `ack` point to.
pub record TransferOut : Type 0 where
  pub error : EspError
  pub word : ℕ
  pub ack : ℕ

abbrev pub with_outputs : ℕ → ℕ → EspError → TransferOut
with_outputs word ack error = record { error = error; word = word; ack = ack }

-- What the 33 bits of a read mean.
unfoldable pub receive : ℕ → ℕ → ℕ → TransferOut
receive old ack bits =
    let value = bits % 2 ^ 32 in
    let received_parity = bit_and (bits / 2 ^ 32) 1 in
    if not (received_parity == parity32 value)
    then with_outputs old ack invalid_crc
    else with_outputs value ack ok

-- After an ACK of OK, a read.
unfoldable pub read_phase : SwdIo → ℕ → ℕ → Bus TransferOut
read_phase io word ack = read_bits data_bits λ error bits.
    if not (is_ok error)
    then bind (restore_host_and_idle io) (λ _. done (with_outputs word ack error))
    else bind (restore_host_and_idle io) λ error'.
      done (if is_ok error' then receive word ack bits else with_outputs word ack error')

-- The data bits of a write, with their parity.
unfoldable pub send : ℕ → ℕ
send word = bit_or word (parity32 word * 2 ^ 32 % 2 ^ 64)

-- After an ACK of OK, a write.
unfoldable pub write_phase : SwdIo → ℕ → Bus EspError
write_phase io word =
    turnaround true (λ error. check error (write_data_phase_and_idle io (send word)))

-- After the ACK has been read.
unfoldable pub acknowledged : SwdIo → SwdRequest → ℕ → ℕ → Bus TransferOut
acknowledged io request word ack =
    if not (ack == ack_ok) && not (ack == ack_wait) && not (ack == ack_fault)
    then bind (complete_protocol_error io)
        (λ error. done (with_outputs word ack (if is_ok error then invalid_response else error)))
    else if not (ack == ack_ok)
    then bind (complete_error_data_phase io request) (λ error. done (with_outputs word ack error))
    else if request.direction == swd_read
    then read_phase io word ack
    else bind (write_phase io word) (λ error. done (with_outputs word ack error))

unfoldable pub transfer_attempt : SwdIo → SwdRequest → ℕ → ℕ → Bus TransferOut
transfer_attempt io request word ack = write_bits (encode_request request) request_bits λ error.
    if not (is_ok error)
    then done (with_outputs word ack error)
    else turnaround false λ error'.
      if not (is_ok error')
      then done (with_outputs word ack error')
      else read_bits ack_bits λ error'' bits.
        if not (is_ok error'')
        then bind (restore_host_and_idle io) (λ _. done (with_outputs word ack error''))
        else acknowledged io request word (bits % 2 ^ 32)

-- The `for` over the attempts; the first argument counts those left.
unfoldable pub transfer_loop : ℕ → SwdIo → SwdRequest → ℕ → ℕ → Bus TransferOut
transfer_loop zero io request word ack = done (with_outputs word ack ok)
transfer_loop (suc left) io request word ack = bind (transfer_attempt io request word ack) λ out.
    elim (not (is_ok out.error) || not (out.ack == ack_wait)) [
      | true ↦ done out
      | false ↦ transfer_loop left io request out.word out.ack
    ]

-- `wait_retries` is less than UINT_MAX, with which the source would not leave its loop.
unfoldable pub protocol_transfer :
    Option SwdIo
    → Option SwdRequest
    → Option ℕ
    → ℕ
    → Option ℕ
    → Bus (EspError × Option ℕ × Option ℕ)
protocol_transfer (some io) (some request) (some word) wait_retries (some ack) =
    if not (io_is_valid (some io)) || not (request_is_valid (some request))
    then done (invalid_arg, some word, some ack)
    else bind (transfer_loop (wait_retries + 1) io request word ack)
        (λ out. done (out.error, some out.word, some out.ack))
protocol_transfer io request word wait_retries ack = done (invalid_arg, word, ack)

abbrev pub idcode_request : SwdRequest
idcode_request = record { port = port_dp; direction = swd_read; address = 0 }

-- After the transfer of `airdap_swd_protocol_connect`.
unfoldable pub connect_result : EspError × Option ℕ × Option ℕ → EspError × Option ℕ
connect_result (ok, idcode, none) = (invalid_response, idcode)
connect_result (ok, idcode, some ack) =
    if ack == ack_wait
    then (timed_out, idcode)
    else if not (ack == ack_ok)
    then (invalid_response, idcode)
    else (ok, idcode)
connect_result (error, idcode, _) = (error, idcode)

-- One `write_bits` of the line sequence, and what follows a success.
unfoldable pub write_then : ℕ → ℕ → Option ℕ → Bus (EspError × Option ℕ) → Bus (EspError × Option ℕ)
write_then bits count idcode next =
    write_bits bits count λ error. if is_ok error then next else done (error, idcode)

unfoldable pub protocol_connect : Option SwdIo → Option ℕ → Bus (EspError × Option ℕ)
protocol_connect io idcode =
    let transfer =
      bind (protocol_transfer io (some idcode_request) idcode connect_wait_retries (some ack_none))
        (λ out. done (connect_result out)) in
    if not (io_is_valid io) || not (is_some idcode)
    then done (invalid_arg, idcode)
    else set_host_output true λ error.
      if not (is_ok error)
      then done (error, idcode)
      else write_then (2 ^ 64 - 1) 64 idcode (
          write_then 0xe79e 16 idcode
            (write_then (2 ^ 56 - 1) 56 idcode (write_then 0 connect_idle_cycles idcode transfer)))
