-- ===== src/Dap/Processor/Packet.antt =====
-- `airdap_dap_process_packet` of firmware/components/dap_protocol/dap_protocol.c, with the commands that
-- its `switch` handles itself.
pub mod Safety
pub mod Reading
pub mod Commands
pub mod Bounds
pub mod Ports
pub mod Selection
use air_dap.Dap.{
  byte, read_u16, packet_size, id_info, id_host_status, id_connect, id_disconnect,
  id_transfer_configure, id_transfer, id_transfer_block, id_write_abort, id_delay, id_reset_target,
  id_swj_pins, id_swj_clock, id_swj_sequence, id_swd_configure, id_swd_sequence, id_ota_query,
  id_ota_reboot,
}
use air_dap.Dap.Processor.{
  Backend, DapProcessor, Outcome, read_u32, invalid_response, status_response, transfer_once,
  has_bit, port_disabled, port_swd, dap_ok, dap_error,
}
use air_dap.Dap.Processor.Transfer.{process_transfer}
use air_dap.Dap.Processor.Block.{process_transfer_block}
use air_dap.Dap.Processor.Sequence.{process_swd_sequence}
use air_dap.Prelude.{
  ℕ, ◌+◌, ◌/◌, ◌%◌, ◌^◌, bit_and, Bool, true, false, not, ◌&&◌, ◌||◌, Option, none, some, List, [],
  ◌∷◌, ◌++◌, length, drop, write_at, ltb, leb, ◌==◌, if◌then◌else◌,
}

-- The string constants with their final NUL.
abbrev pub vendor : List ℕ
vendor = 65 ∷ 105 ∷ 114 ∷ 68 ∷ 65 ∷ 80 ∷ 0 ∷ []

abbrev pub product : List ℕ
product =
    65 ∷ 105 ∷ 114 ∷ 68 ∷ 65 ∷ 80 ∷ 32 ∷ 67 ∷ 77 ∷ 83 ∷ 73 ∷ 83 ∷ 45 ∷ 68 ∷ 65 ∷ 80 ∷ 32 ∷ 118 ∷ 50
    ∷ 0 ∷ []

abbrev pub protocol_text : List ℕ
protocol_text = 50 ∷ 46 ∷ 49 ∷ 46 ∷ 50 ∷ 0 ∷ []

-- The data of `process_info`, by the id of the information.
unfoldable pub info_data : DapProcessor → ℕ → List ℕ
info_data processor id =
    if id == 0x01
    then vendor
    else if id == 0x02
    then product
    else if id == 0x03
    then processor.serial_number ++ 0 ∷ []
    else if id == 0x04
    then protocol_text
    else if id == 0x09
    then processor.firmware_version ++ 0 ∷ []
    else if id == 0xf0
    then 1 ∷ 1 ∷ []
    else if id == 0xfe
    then 1 ∷ []
    else if id == 0xff
    then packet_size % 2 ^ 8 ∷ packet_size / 2 ^ 8 % 2 ^ 8 ∷ []
    else []

unfoldable pub process_info : DapProcessor → List ℕ → ℕ → List ℕ → ℕ → ℕ × List ℕ
process_info processor request request_length response capacity =
    let text = info_data processor (byte request 1) in
    if ltb request_length 2 || ltb capacity 2
    then invalid_response response capacity
    else if ltb 255 (length text) || ltb capacity (2 + length text)
    then invalid_response response capacity
    else (
      2 + length text,
      write_at 2 text (write_at 0 (id_info ∷ length text % 2 ^ 8 ∷ []) response),
    )

-- The functions of the backend that may be `NULL`: those with a result fail then, the others do nothing.
abbrev pub call : {S : Type 0} → Option (S → S) → S → S
call none s = s
call (some f) s = f s

abbrev pub call_bool : {S : Type 0} → Option (S → Bool × S) → S → Bool × S
call_bool none s = (false, s)
call_bool (some f) s = f s

abbrev pub given : {A B : Type 0} → Option (A → B) → A → Option B
given none a = none
given (some f) a = some (f a)

abbrev pub respond : {S : Type 0} → ℕ × List ℕ → DapProcessor → S → Outcome S
respond r processor s = record { size = r.0; response = r.1; processor = processor; backend = s }

-- A command with a status, once its request is long enough.
abbrev pub with_status :
    {S : Type 0} → ℕ → Bool × S → DapProcessor → List ℕ → ℕ → List ℕ → ℕ → S → Outcome S
with_status needed done processor request request_length response capacity s =
    if ltb request_length needed
    then respond (invalid_response response capacity) processor s
    else respond (status_response (byte request 0) done.0 response capacity) processor done.1

module _ {S : Type 0} (backend : Backend S) where
  unfoldable pub process_host_status : DapProcessor → List ℕ → ℕ → List ℕ → ℕ → S → Outcome S
  process_host_status processor request request_length response capacity s =
      if ltb request_length 3 || ltb 1 (byte request 1)
      then respond (invalid_response response capacity) processor s
      else respond (status_response (byte request 0) true response capacity) processor
          (call (given (given backend.host_status (byte request 1)) (has_bit (byte request 2) 1)) s)

  unfoldable pub process_connect : DapProcessor → List ℕ → ℕ → List ℕ → ℕ → S → Outcome S
  process_connect processor request request_length response capacity s =
      let supported = byte request 1 == 0 || byte request 1 == port_swd in
      let attempt = if supported then call_bool backend.connect s else (false, s) in
      let port = if attempt.0 then port_swd else port_disabled in
      if ltb request_length 2 || ltb capacity 2
      then respond (invalid_response response capacity) processor s
      else respond (2, write_at 0 (byte request 0 ∷ port ∷ []) response)
          (record processor { selected_port = port })
          (if attempt.0 then attempt.1 else call backend.disconnect attempt.1)

  unfoldable pub process_disconnect : DapProcessor → List ℕ → ℕ → List ℕ → ℕ → S → Outcome S
  process_disconnect processor request request_length response capacity s =
      respond (status_response (byte request 0) true response capacity)
        (record processor { selected_port = port_disabled }) (call backend.disconnect s)

  unfoldable pub process_transfer_configure : DapProcessor → List ℕ → ℕ → List ℕ → ℕ → S → Outcome S
  process_transfer_configure processor request request_length response capacity s =
      let done =
        call_bool (given (given backend.configure_transfer (byte request 1)) (read_u16 request 2))
          s in
      if ltb request_length 6
      then respond (invalid_response response capacity) processor s
      else respond (status_response (byte request 0) done.0 response capacity)
          (record processor { match_retries = read_u16 request 4 }) done.1

  unfoldable pub process_write_abort : DapProcessor → List ℕ → ℕ → List ℕ → ℕ → S → Outcome S
  process_write_abort processor request request_length response capacity s =
      let (done, _, _, s') = transfer_once backend 0 (read_u32 request 2) 0 s in
      with_status 6 (if processor.selected_port == port_swd then (done, s') else (false, s))
        processor request request_length response capacity s

  unfoldable pub process_delay : DapProcessor → List ℕ → ℕ → List ℕ → ℕ → S → Outcome S
  process_delay processor request request_length response capacity s =
      with_status 3 (true, call (given backend.delay_us (read_u16 request 1)) s) processor request
        request_length response capacity s

  unfoldable pub process_reset_target : DapProcessor → List ℕ → ℕ → List ℕ → ℕ → S → Outcome S
  process_reset_target processor request request_length response capacity s =
      let done = call_bool backend.reset_target s in
      if ltb capacity 3
      then respond (invalid_response response capacity) processor s
      else respond
          (
            3,
            write_at 0 (byte request 0 ∷ (if done.0 then dap_ok else dap_error) ∷ 0 ∷ []) response,
          )
          processor done.1

  -- `swj_pins` with the pins that it leaves behind, 0 unless it succeeds.
  unfoldable pub pins_of : ℕ → ℕ → ℕ → S → ℕ × S
  pins_of value select wait_us s = elim backend.swj_pins [
    | none ↦ (0, s)
    | some swj_pins ↦
        let (done, pins, s') = swj_pins value select wait_us s in (if done then pins else 0, s')
  ]

  unfoldable pub process_swj_pins : DapProcessor → List ℕ → ℕ → List ℕ → ℕ → S → Outcome S
  process_swj_pins processor request request_length response capacity s =
      let done = pins_of (byte request 1) (byte request 2) (read_u32 request 3) s in
      if ltb request_length 7 || ltb capacity 2
      then respond (invalid_response response capacity) processor s
      else respond (2, write_at 0 (byte request 0 ∷ done.0 ∷ []) response) processor done.1

  unfoldable pub process_swj_clock : DapProcessor → List ℕ → ℕ → List ℕ → ℕ → S → Outcome S
  process_swj_clock processor request request_length response capacity s =
      let clock_hz = read_u32 request 1 in
      with_status 5
        (if clock_hz == 0 then (false, s) else call_bool (given backend.set_clock clock_hz) s)
        processor request request_length response capacity s

  unfoldable pub process_swj_sequence : DapProcessor → List ℕ → ℕ → List ℕ → ℕ → S → Outcome S
  process_swj_sequence processor request request_length response capacity s =
      let bit_count = if byte request 1 == 0 then 256 else byte request 1 in
      with_status 2
        (if leb (2 + (bit_count + 7) / 8) request_length && processor.selected_port == port_swd
          then call_bool (given (given backend.write_sequence (drop 2 request)) bit_count) s
          else (false, s))
        processor request request_length response capacity s

  unfoldable pub process_swd_configure : DapProcessor → List ℕ → ℕ → List ℕ → ℕ → S → Outcome S
  process_swd_configure processor request request_length response capacity s =
      with_status 2
        (call_bool
          (given (given backend.configure_swd (bit_and (byte request 1) 3 + 1))
            (has_bit (byte request 1) 4))
          s)
        processor request request_length response capacity s

  unfoldable pub process_vendor : DapProcessor → List ℕ → ℕ → List ℕ → ℕ → S → Outcome S
  process_vendor processor request request_length response capacity s =
      elim backend.vendor_command [
        | none ↦ respond (invalid_response response capacity) processor s
        | some vendor_command ↦
            let (size, response', s') =
              vendor_command (not (processor.selected_port == port_disabled)) request request_length
                response capacity s in
            respond (size, response') processor s'
      ]

  -- The `switch`, with the capacity that it gets.
  unfoldable pub process_command : DapProcessor → List ℕ → ℕ → List ℕ → ℕ → S → Outcome S
  process_command processor request request_length response capacity s =
      let command = byte request 0 in
      if command == id_info
      then respond (process_info processor request request_length response capacity) processor s
      else if command == id_host_status
      then process_host_status processor request request_length response capacity s
      else if command == id_connect
      then process_connect processor request request_length response capacity s
      else if command == id_disconnect
      then process_disconnect processor request request_length response capacity s
      else if command == id_transfer_configure
      then process_transfer_configure processor request request_length response capacity s
      else if command == id_transfer
      then process_transfer backend processor request request_length response capacity s
      else if command == id_transfer_block
      then process_transfer_block backend processor request request_length response capacity s
      else if command == id_write_abort
      then process_write_abort processor request request_length response capacity s
      else if command == id_delay
      then process_delay processor request request_length response capacity s
      else if command == id_reset_target
      then process_reset_target processor request request_length response capacity s
      else if command == id_swj_pins
      then process_swj_pins processor request request_length response capacity s
      else if command == id_swj_clock
      then process_swj_clock processor request request_length response capacity s
      else if command == id_swj_sequence
      then process_swj_sequence processor request request_length response capacity s
      else if command == id_swd_configure
      then process_swd_configure processor request request_length response capacity s
      else if command == id_swd_sequence
      then process_swd_sequence backend processor request request_length response capacity s
      else if leb id_ota_query command && leb command id_ota_reboot
      then process_vendor processor request request_length response capacity s
      else respond (invalid_response response capacity) processor s

  -- At pointers that are not `NULL`.
  unfoldable pub process_packet : DapProcessor → List ℕ → ℕ → List ℕ → ℕ → S → Outcome S
  process_packet processor request request_length response capacity s =
      if request_length == 0 || capacity == 0
      then respond (0, response) processor s
      else process_command processor request request_length response
          (if ltb packet_size capacity then packet_size else capacity) s
