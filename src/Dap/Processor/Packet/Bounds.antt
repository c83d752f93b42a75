-- ===== src/Dap/Processor/Packet/Bounds.antt =====
-- `airdap_dap_process_packet` never writes past the response buffer.
use air_dap.Dap.{byte, packet_size}
use air_dap.Dap.Processor.{invalid_response, Backend, DapProcessor, Outcome}
use air_dap.Dap.Processor.Packet.{
  process_disconnect, process_write_abort, process_delay, process_swj_clock, process_swj_sequence,
  process_swd_configure, process_vendor, process_command, process_packet, respond,
}
use air_dap.Dap.Processor.Packet.Safety.{
  Safe, SafeOut, invalid-Safe, status_response-Safe, process_transfer-Safe,
}
use air_dap.Dap.Processor.Packet.Commands.{
  VendorSafe, with_status-Safe, process_host_status-Safe, process_connect-Safe,
  process_transfer_configure-Safe, process_reset_target-Safe, process_swj_pins-Safe,
  process_transfer_block-Safe, process_swd_sequence-Safe, process_info-Safe,
}
use air_dap.Dap.Processor.Packet.Reading.{ReadSafe}
use air_dap.Prelude.{
  ℕ, ◌≡◌, refl, arith, Bool, Option, none, some, List, min, ltb, if◌then◌else◌, true,
}

module _ {S : Type 0} (backend : Backend S) (capacity : ℕ) (old : List ℕ) where
  vendor_called :
      (v : Option (Bool → List ℕ → ℕ → List ℕ → ℕ → S → ℕ × List ℕ × S)) (processor : DapProcessor)
      (connected : Bool) (request : List ℕ) (request_length : ℕ) (s : S)
      → ((f : Bool → List ℕ → ℕ → List ℕ → ℕ → S → ℕ × List ℕ × S)
          → v ≡ some f
          → Safe capacity old (
            (f connected request request_length old capacity s).0,
            (f connected request request_length old capacity s).1,
          ))
      → SafeOut capacity old (elim v as (λ _. Outcome S) [
        | none ↦ respond (invalid_response old capacity) processor s
        | some f ↦
            let (size, response', s') = f connected request request_length old capacity s in
            respond (size, response') processor s'
      ])
  vendor_called none processor connected request request_length s h =
      invalid-Safe backend capacity old
  vendor_called (some f) processor connected request request_length s h = h f refl

  process_vendor-Safe :
      (processor : DapProcessor) (request : List ℕ) (request_length : ℕ) (s : S)
      → VendorSafe backend capacity old
      → SafeOut capacity old
          (process_vendor backend processor request request_length old capacity s)
  unfolding process_vendor
  process_vendor-Safe processor request request_length s h =
      vendor_called backend.vendor_command processor _ request request_length s
        (λ f e. h f e _ request request_length s)

  process_write_abort-Safe :
      (processor : DapProcessor) (request : List ℕ) (request_length : ℕ) (s : S)
      → SafeOut capacity old
          (process_write_abort backend processor request request_length old capacity s)
  unfolding process_write_abort
  process_write_abort-Safe processor request request_length s =
      with_status-Safe backend capacity old _ _ processor request request_length s

  process_delay-Safe :
      (processor : DapProcessor) (request : List ℕ) (request_length : ℕ) (s : S)
      → SafeOut capacity old (process_delay backend processor request request_length old capacity s)
  unfolding process_delay
  process_delay-Safe processor request request_length s =
      with_status-Safe backend capacity old _ _ processor request request_length s

  process_swj_clock-Safe :
      (processor : DapProcessor) (request : List ℕ) (request_length : ℕ) (s : S)
      → SafeOut capacity old
          (process_swj_clock backend processor request request_length old capacity s)
  unfolding process_swj_clock
  process_swj_clock-Safe processor request request_length s =
      with_status-Safe backend capacity old _ _ processor request request_length s

  process_swj_sequence-Safe :
      (processor : DapProcessor) (request : List ℕ) (request_length : ℕ) (s : S)
      → SafeOut capacity old
          (process_swj_sequence backend processor request request_length old capacity s)
  unfolding process_swj_sequence
  process_swj_sequence-Safe processor request request_length s =
      with_status-Safe backend capacity old _ _ processor request request_length s

  process_swd_configure-Safe :
      (processor : DapProcessor) (request : List ℕ) (request_length : ℕ) (s : S)
      → SafeOut capacity old
          (process_swd_configure backend processor request request_length old capacity s)
  unfolding process_swd_configure
  process_swd_configure-Safe processor request request_length s =
      with_status-Safe backend capacity old _ _ processor request request_length s

  process_command-Safe :
      (processor : DapProcessor) (request : List ℕ) (request_length : ℕ) (s : S)
      → VendorSafe backend capacity old
      → ReadSafe backend
      → SafeOut capacity old
          (process_command backend processor request request_length old capacity s)
  unfolding process_command process_disconnect
  process_command-Safe processor request request_length s h reads = ground (
    arith,
    invalid-Safe backend capacity old,
    status_response-Safe (byte request 0) true capacity old,
    process_info-Safe backend capacity old processor request request_length,
    process_host_status-Safe backend capacity old processor request request_length s,
    process_connect-Safe backend capacity old processor request request_length s,
    process_transfer_configure-Safe backend capacity old processor request request_length s,
    process_transfer-Safe backend capacity old processor request request_length s,
    process_transfer_block-Safe backend capacity old processor request request_length s,
    process_reset_target-Safe backend capacity old processor request request_length s,
    process_swj_pins-Safe backend capacity old processor request request_length s,
    process_swd_sequence-Safe backend capacity old processor request request_length s reads,
    process_vendor-Safe processor request request_length s h,
    process_write_abort-Safe processor request request_length s,
    process_delay-Safe processor request request_length s,
    process_swj_clock-Safe processor request request_length s,
    process_swj_sequence-Safe processor request request_length s,
    process_swd_configure-Safe processor request request_length s,
  )

-- Whatever the request and the backend, as long as the vendor commands keep to it themselves and the
-- backend's `read_sequence` writes no more bytes than the bits it is asked for take:
-- `airdap_dap_process_packet` returns a size that is at most 508 and at most the capacity it is given,
-- and changes no byte of the response from there on.
pub process_packet-Safe :
    {S : Type 0} (backend : Backend S) (processor : DapProcessor) (request : List ℕ)
    (request_length : ℕ) (old : List ℕ) (capacity : ℕ) (s : S)
    → VendorSafe backend (min packet_size capacity) old
    → ReadSafe backend
    → SafeOut
        (min packet_size capacity)
        old
        (process_packet backend processor request request_length old capacity s)
unfolding process_packet
process_packet-Safe backend processor request request_length old capacity s h reads = ground (
  arith,
  process_command-Safe backend (min packet_size capacity) old processor request request_length s h
      reads,
  same,
)
  where
    same : (if ltb packet_size capacity then packet_size else capacity) ≡ min packet_size capacity
    same = ground arith
