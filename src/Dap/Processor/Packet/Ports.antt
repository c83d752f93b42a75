-- ===== src/Dap/Processor/Packet/Ports.antt =====
-- Which commands reach the target, and which change the selected port.
use air_dap.Dap.{byte, id_connect, id_disconnect}
use air_dap.Dap.Processor.{Backend, DapProcessor, Outcome, port_swd, invalid_response}
use air_dap.Dap.Processor.Transfer.{TransferRun, transfer_finish, transfer_run, process_transfer}
use air_dap.Dap.Processor.Block.{BlockRun, block_finish, block_run, process_transfer_block}
use air_dap.Dap.Processor.Sequence.{
  SequenceRun, read_bits_of, write_bits_of, sequence_round, sequence_rounds, sequence_finish,
  process_swd_sequence,
}
use air_dap.Dap.Processor.Packet.{
  process_host_status, process_transfer_configure, process_write_abort, process_delay,
  process_reset_target, process_swj_pins, process_swj_clock, process_swj_sequence,
  process_swd_configure, process_vendor, process_command, respond,
}
use air_dap.Dap.Processor.Packet.Safety.{SafeRound, follow-Safe}
use air_dap.Prelude.{
  ℕ, zero, suc, ◌≡◌, ◌≢◌, ◌⊎◌, inl, inr, refl, arith, Bool, true, false, not, List, ◌==◌, Option,
  none, some, Bool-cases,
}

module _ {S : Type 0} (backend : Backend S) (processor : DapProcessor) (request : List ℕ)
    (request_length : ℕ) (response : List ℕ) (capacity : ℕ) (s : S) where
  transfer_finish-port :
      (r : Bool × TransferRun S)
      → (transfer_finish backend processor capacity r).processor.selected_port
        ≡ processor.selected_port
  unfolding transfer_finish
  transfer_finish-port (false, run) = refl
  transfer_finish-port (true, run) = refl

  transfer_run-port :
      (transfer_run backend processor request request_length response capacity
        s).processor.selected_port
      ≡ processor.selected_port
  unfolding transfer_run
  transfer_run-port = elim (Bool-cases (not (processor.selected_port == port_swd))) [
    | inl e ↦ rw e refl
    | inr e ↦ rw e (transfer_finish-port _)
  ]

  process_transfer-port :
      (process_transfer backend processor request request_length response capacity
        s).processor.selected_port
      ≡ processor.selected_port
  unfolding process_transfer
  process_transfer-port = ground (arith, transfer_run-port)

  -- Without the SWD port a TRANSFER does not reach the target.
  pub process_transfer-quiet :
      processor.selected_port ≢ port_swd
      → (process_transfer backend processor request request_length response capacity s).backend ≡ s
  unfolding process_transfer transfer_run
  process_transfer-quiet off = ground arith

  block_finish-processor :
      (transfer_request : ℕ) (r : Bool × BlockRun S)
      → (block_finish backend processor transfer_request capacity r).processor ≡ processor
  unfolding block_finish
  block_finish-processor transfer_request (false, run) = refl
  block_finish-processor transfer_request (true, run) = refl

  block_run-processor :
      (block_run backend processor request request_length response capacity s).processor ≡ processor
  unfolding block_run
  block_run-processor = elim (Bool-cases (processor.selected_port == port_swd)) [
    | inl e ↦ rw e (block_finish-processor _ _)
    | inr e ↦ rw e refl
  ]

  process_transfer_block-processor :
      (process_transfer_block backend processor request request_length response capacity
        s).processor
      ≡ processor
  unfolding process_transfer_block
  process_transfer_block-processor = ground (arith, block_run-processor)

  pub process_transfer_block-quiet :
      processor.selected_port ≢ port_swd
      → (process_transfer_block backend processor request request_length response capacity
          s).backend
        ≡ s
  unfolding process_transfer_block block_run
  process_transfer_block-quiet off = ground arith

  -- A run of SWD sequences that have failed already.
  Idle : SequenceRun S → Type 0
  Idle run = (run.success ≡ false) × (run.backend ≡ s)

  sequence_round-Idle :
      (run : SequenceRun S)
      → Idle run
      → SafeRound Idle (sequence_round backend request request_length capacity run)
  unfolding sequence_round Idle read_bits_of write_bits_of
  sequence_round-Idle run (off, same) = rw off (ground (arith, off, same))

  sequence_rounds-Idle :
      (left : ℕ) (run : SequenceRun S)
      → Idle run
      → Idle (sequence_rounds backend left request request_length capacity run).1
  unfolding sequence_rounds
  sequence_rounds-Idle zero run h = h
  sequence_rounds-Idle (suc left) run h =
      follow-Safe Idle (sequence_round backend request request_length capacity run)
        (sequence_rounds backend left request request_length capacity) (sequence_round-Idle run h)
        (sequence_rounds-Idle left)

  sequence_finish-parts :
      (r : Bool × SequenceRun S)
      → ((sequence_finish backend processor capacity r).processor ≡ processor)
        × ((sequence_finish backend processor capacity r).backend ≡ r.1.backend)
  unfolding sequence_finish
  sequence_finish-parts (false, run) = (refl, refl)
  sequence_finish-parts (true, run) = (refl, refl)

  pub process_swd_sequence-parts :
      ((process_swd_sequence backend processor request request_length response capacity s).processor
        ≡ processor)
      × (processor.selected_port ≢ port_swd
          → (process_swd_sequence backend processor request request_length response capacity
              s).backend
            ≡ s)
  unfolding process_swd_sequence Idle
  process_swd_sequence-parts = (ground (arith, parts), λ off. ground (arith, parts, quiet off))
    where
      first : SequenceRun S
      first = record {
        input = 2;
        output = 2;
        success = processor.selected_port == port_swd;
        response = response;
        backend = s;
      }

      ending : Bool × SequenceRun S
      ending = sequence_rounds backend (byte request 1) request request_length capacity first

      parts :
          ((sequence_finish backend processor capacity ending).processor ≡ processor)
          × ((sequence_finish backend processor capacity ending).backend ≡ ending.1.backend)
      parts = sequence_finish-parts ending

      quiet : processor.selected_port ≢ port_swd → ending.1.backend ≡ s
      quiet off = (sequence_rounds-Idle (byte request 1) first (ground (arith, off), refl)).1

  vendor_processor :
      (v : Option (Bool → List ℕ → ℕ → List ℕ → ℕ → S → ℕ × List ℕ × S)) (connected : Bool)
      → (elim v as (λ _. Outcome S) [
        | none ↦ respond (invalid_response response capacity) processor s
        | some f ↦
            let (size, response', s') = f connected request request_length response capacity s in
            respond (size, response') processor s'
      ]).processor
        ≡ processor
  vendor_processor none connected = refl
  vendor_processor (some f) connected = refl

  process_vendor-processor :
      (process_vendor backend processor request request_length response capacity s).processor
      ≡ processor
  unfolding process_vendor
  process_vendor-processor = vendor_processor backend.vendor_command _

  process_host_status-processor :
      (process_host_status backend processor request request_length response capacity s).processor
      ≡ processor
  unfolding process_host_status
  process_host_status-processor = ground arith

  process_write_abort-processor :
      (process_write_abort backend processor request request_length response capacity s).processor
      ≡ processor
  unfolding process_write_abort
  process_write_abort-processor = ground arith

  process_delay-processor :
      (process_delay backend processor request request_length response capacity s).processor
      ≡ processor
  unfolding process_delay
  process_delay-processor = ground arith

  process_reset_target-processor :
      (process_reset_target backend processor request request_length response capacity s).processor
      ≡ processor
  unfolding process_reset_target
  process_reset_target-processor = ground arith

  process_swj_pins-processor :
      (process_swj_pins backend processor request request_length response capacity s).processor
      ≡ processor
  unfolding process_swj_pins
  process_swj_pins-processor = ground arith

  process_swj_clock-processor :
      (process_swj_clock backend processor request request_length response capacity s).processor
      ≡ processor
  unfolding process_swj_clock
  process_swj_clock-processor = ground arith

  process_swj_sequence-processor :
      (process_swj_sequence backend processor request request_length response capacity s).processor
      ≡ processor
  unfolding process_swj_sequence
  process_swj_sequence-processor = ground arith

  process_swd_configure-processor :
      (process_swd_configure backend processor request request_length response capacity s).processor
      ≡ processor
  unfolding process_swd_configure
  process_swd_configure-processor = ground arith

  process_transfer_configure-port :
      (process_transfer_configure backend processor request request_length response capacity
        s).processor.selected_port
      ≡ processor.selected_port
  unfolding process_transfer_configure
  process_transfer_configure-port = ground arith

  pub process_command-port :
      (process_command backend processor request request_length response capacity
          s).processor.selected_port
        ≢ processor.selected_port
      → (byte request 0 ≡ id_connect) ⊎ (byte request 0 ≡ id_disconnect)
  unfolding process_command
  process_command-port changed = ground (
    arith, process_transfer-port, process_transfer_block-processor, process_swd_sequence-parts.0,
    process_vendor-processor, process_transfer_configure-port, process_host_status-processor,
    process_write_abort-processor, process_delay-processor, process_reset_target-processor,
    process_swj_pins-processor, process_swj_clock-processor, process_swj_sequence-processor,
    process_swd_configure-processor,
  )
