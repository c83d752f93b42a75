-- ===== src/Dap/Examples.antt =====
-- The theorems on firmware/components/dap_protocol/dap_protocol.c at a concrete request.
use air_dap.Dap.Request.{
  request_size, request_size_of, transfer_request_size, transfer_size, has_data,
}
use air_dap.Dap.Request.Stable.{request_size-append}
use air_dap.Dap.{byte, packet_size, id_connect, id_disconnect}
use air_dap.Dap.Processor.{Backend, DapProcessor, port_disabled, port_swd}
use air_dap.Dap.Processor.Packet.{process_packet}
use air_dap.Dap.Processor.Packet.Safety.{SafeOut}
use air_dap.Dap.Processor.Packet.Commands.{VendorSafe}
use air_dap.Dap.Processor.Packet.Reading.{ReadSafe}
use air_dap.Dap.Processor.Packet.Bounds.{process_packet-Safe}
use air_dap.Dap.Processor.Packet.Selection.{process_packet-port, drives_target}
use air_dap.Prelude.{
  ◌+◌, true, false, none, min, zeros, length-zeros, ◌/◌, ◌⊎◌, ℕ, ◌≡◌, refl, arith, List, [], ◌∷◌,
  ◌++◌, length, some,
}

-- TRANSFER with a read and a write of four bytes.
abbrev transfer : List ℕ
transfer = 5 ∷ 0 ∷ 2 ∷ 2 ∷ 0 ∷ 1 ∷ 2 ∷ 3 ∷ 4 ∷ []

transfer-size : request_size (some transfer) (length transfer) ≡ 9
unfolding request_size request_size_of transfer_request_size transfer_size has_data
transfer-size = refl

request_size-append_example :
    request_size (some (transfer ++ 7 ∷ [])) (length (transfer ++ 7 ∷ []))
    ≡ request_size (some transfer) (length transfer)
request_size-append_example = request_size-append transfer (7 ∷ []) (omega (arith, transfer-size))

-- A backend that counts its calls, without vendor commands.
abbrev counting : Backend ℕ
counting = record {
  connect = some λ s. (true, s + 1);
  disconnect = some λ s. s + 1;
  set_clock = none;
  configure_transfer = none;
  configure_swd = none;
  transfer = some λ ap read address value status s. (true, value, 1, s + 1);
  write_sequence = none;
  read_sequence = some λ n s. (true, zeros ((n + 7) / 8), s + 1);
  swj_pins = none;
  reset_target = none;
  delay_us = none;
  host_status = none;
  vendor_command = none;
}

abbrev idle_processor : DapProcessor
idle_processor = record {
  serial_number = 0x41 ∷ [];
  firmware_version = 0x31 ∷ [];
  match_mask = 0xffff_ffff;
  match_retries = 0;
  selected_port = port_disabled;
}

counting-VendorSafe : VendorSafe counting (min packet_size 16) (zeros 16)
counting-VendorSafe = λ f e. absurd (cc)

counting-ReadSafe : ReadSafe counting
counting-ReadSafe f e n s = ground (arith, e, length-zeros ((n + 7) / 8))

process_packet-Safe_example :
    SafeOut
      (min packet_size 16)
      (zeros 16)
      (process_packet counting idle_processor transfer 9 (zeros 16) 16 0)
process_packet-Safe_example =
    process_packet-Safe counting idle_processor transfer 9 (zeros 16) 16 0 counting-VendorSafe
      counting-ReadSafe

process_packet-port_example :
    let out = process_packet counting idle_processor transfer 9 (zeros 16) 16 0 in
    ((out.processor.selected_port ≡ port_disabled)
      ⊎ (byte transfer 0 ≡ id_connect)
      ⊎ (byte transfer 0 ≡ id_disconnect))
    × ((port_disabled ≡ port_swd) ⊎ (drives_target (byte transfer 0) ≡ false) ⊎ (out.backend ≡ 0))
process_packet-port_example = process_packet-port counting idle_processor transfer 9 (zeros 16) 16 0
