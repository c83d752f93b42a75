-- ===== src/Dap/Processor/Packet/Commands.antt =====
-- The other commands, and the processor as a whole: what is written to the response buffer.
use air_dap.Dap.{byte, id_transfer_block, id_info}
use air_dap.Dap.Processor.{
  Backend, DapProcessor, transfer_once, write_u16, read_u32, dap_ok, dap_error,
}
use air_dap.Dap.Processor.Block.{
  BlockRun, block_round, block_rounds, block_finish, block_run, process_transfer_block,
}
use air_dap.Dap.Processor.Sequence.{
  SequenceRun, sequence_bits, read_bits_of, sequence_round, sequence_rounds, sequence_finish,
  process_swd_sequence,
}
use air_dap.Dap.Processor.Packet.{
  info_data, process_info, with_status, process_host_status, process_connect,
  process_transfer_configure, process_reset_target, pins_of, process_swj_pins,
}
use air_dap.Dap.Processor.Packet.Safety.{
  Safe, SafeOut, write_at-Safe, invalid_response-Safe, invalid-Safe, status_response-Safe,
  drop-write_u32, SafeRound, follow-Safe,
}
use air_dap.Dap.Processor.Packet.Reading.{ReadSafe, read_bits_of-length}
use air_dap.Prelude.{
  ℕ, zero, suc, ◌+◌, ◌/◌, ◌%◌, ◌^◌, ◌≤◌, ◌≡◌, refl, ◌∙◌, arith, Bool, true, false, some, List, [],
  ◌∷◌, length, drop, write_at, zeros, length-zeros, drop-write_at, Bool-cases, inl, inr, ◌==◌,
}

module _ {S : Type 0} (backend : Backend S) (capacity : ℕ) (old : List ℕ) where
  SafeBlock : BlockRun S → Type 0
  SafeBlock run = (4 ≤ run.output) × Safe capacity old (run.output, run.response)

  block_round-Safe :
      (transfer_request : ℕ) (request : List ℕ) (request_length : ℕ) (run : BlockRun S)
      → SafeBlock run
      → SafeRound SafeBlock
          (block_round backend transfer_request request request_length capacity run)
  unfolding block_round SafeBlock
  block_round-Safe transfer_request request request_length run h = ground (
    arith,
    h,
    drop-write_u32 capacity run.response run.output word0,
    drop-write_u32 capacity run.response run.output word1,
  )
    where
      word0 : ℕ
      word0 = (transfer_once backend transfer_request 0 run.status run.backend).1

      word1 : ℕ
      word1 =
          (transfer_once backend transfer_request (read_u32 request run.input) run.status
            run.backend).1

  block_rounds-Safe :
      (left transfer_request : ℕ) (request : List ℕ) (request_length : ℕ) (run : BlockRun S)
      → SafeBlock run
      → SafeBlock (block_rounds backend left transfer_request request request_length capacity run).1
  unfolding block_rounds
  block_rounds-Safe zero transfer_request request request_length run h = h
  block_rounds-Safe (suc left) transfer_request request request_length run h =
      follow-Safe SafeBlock
        (block_round backend transfer_request request request_length capacity run)
        (block_rounds backend left transfer_request request request_length capacity)
        (block_round-Safe transfer_request request request_length run h)
        (block_rounds-Safe left transfer_request request request_length)

  block_finish-Safe :
      (processor : DapProcessor) (transfer_request : ℕ) (r : Bool × BlockRun S)
      → SafeBlock r.1
      → SafeOut capacity old (block_finish backend processor transfer_request capacity r)
  unfolding block_finish SafeBlock write_u16
  block_finish-Safe processor transfer_request (false, run) h =
      invalid_response-Safe capacity run.output old run.response h.1
  block_finish-Safe processor transfer_request (true, run) h =
      write_at-Safe capacity 3 run.output (_ ∷ []) old _
        (write_at-Safe capacity 1 run.output (_ ∷ _ ∷ []) old run.response h.1 (omega (arith, h)))
        (omega (arith, h))

  block_run-Safe :
      (processor : DapProcessor) (request : List ℕ) (request_length : ℕ) (s : S)
      → 4 ≤ capacity
      → SafeOut capacity old (block_run backend processor request request_length old capacity s)
  unfolding block_run SafeBlock write_u16
  block_run-Safe processor request request_length s room =
      elim (Bool-cases (processor.selected_port == 1)) [
        | inl e ↦ rw e (
            block_finish-Safe processor (byte request 4) _
              (block_rounds-Safe _ (byte request 4) request request_length _ (omega arith, begun)))
        | inr e ↦ rw e (
            write_at-Safe capacity 3 4 (_ ∷ []) old _
              (write_at-Safe capacity 1 4 (_ ∷ _ ∷ []) old _ begun (omega (arith, room)))
              (omega (arith, room)))
      ]
    where
      begun : Safe capacity old (4, write_at 0 (id_transfer_block ∷ []) old)
      begun = (room, drop-write_at capacity 0 (id_transfer_block ∷ []) old (omega (arith, room)))

  pub process_transfer_block-Safe :
      (processor : DapProcessor) (request : List ℕ) (request_length : ℕ) (s : S)
      → SafeOut capacity old
          (process_transfer_block backend processor request request_length old capacity s)
  unfolding process_transfer_block
  process_transfer_block-Safe processor request request_length s =
      ground (
        arith,
        invalid-Safe backend capacity old,
        block_run-Safe processor request request_length s,
      )

  SafeSequence : SequenceRun S → Type 0
  SafeSequence run = (2 ≤ run.output) × Safe capacity old (run.output, run.response)

  -- Clearing bytes of the response and filling them.
  filled :
      (response bytes : List ℕ) (n k : ℕ)
      → n + k ≤ capacity
      → length bytes ≤ k
      → drop capacity (write_at n bytes (write_at n (zeros k) response)) ≡ drop capacity response
  filled response bytes n k h short =
      drop-write_at capacity n bytes (write_at n (zeros k) response) (omega (arith, h, short))
      ∙ drop-write_at capacity n (zeros k) response (omega (arith, length-zeros k))

  sequence_round-Safe :
      (request : List ℕ) (request_length : ℕ) (run : SequenceRun S)
      → ReadSafe backend
      → SafeSequence run
      → SafeRound SafeSequence (sequence_round backend request request_length capacity run)
  unfolding sequence_round SafeSequence
  sequence_round-Safe request request_length run reads h = ground (arith, h, full)
    where
      count : ℕ
      count = (sequence_bits (byte request run.input) + 7) / 8

      bytes : List ℕ
      bytes =
          (read_bits_of backend run.success (sequence_bits (byte request run.input)) run.backend).1

      full :
          run.output + count ≤ capacity
          → drop capacity
              (write_at run.output bytes (write_at run.output (zeros count) run.response))
            ≡ drop capacity run.response
      full room = filled run.response bytes run.output count room (
          read_bits_of-length backend run.success (sequence_bits (byte request run.input))
            run.backend reads)

  sequence_rounds-Safe :
      (left : ℕ) (request : List ℕ) (request_length : ℕ) (run : SequenceRun S)
      → ReadSafe backend
      → SafeSequence run
      → SafeSequence (sequence_rounds backend left request request_length capacity run).1
  unfolding sequence_rounds
  sequence_rounds-Safe zero request request_length run reads h = h
  sequence_rounds-Safe (suc left) request request_length run reads h =
      follow-Safe SafeSequence (sequence_round backend request request_length capacity run)
        (sequence_rounds backend left request request_length capacity)
        (sequence_round-Safe request request_length run reads h)
        (λ a. sequence_rounds-Safe left request request_length a reads)

  sequence_finish-Safe :
      (processor : DapProcessor) (r : Bool × SequenceRun S)
      → SafeSequence r.1
      → SafeOut capacity old (sequence_finish backend processor capacity r)
  unfolding sequence_finish SafeSequence
  sequence_finish-Safe processor (false, run) h =
      invalid_response-Safe capacity run.output old run.response h.1
  sequence_finish-Safe processor (true, run) h =
      write_at-Safe capacity 0 run.output (_ ∷ _ ∷ []) old run.response h.1 (omega (arith, h))

  pub process_swd_sequence-Safe :
      (processor : DapProcessor) (request : List ℕ) (request_length : ℕ) (s : S)
      → ReadSafe backend
      → SafeOut capacity old
          (process_swd_sequence backend processor request request_length old capacity s)
  unfolding process_swd_sequence SafeSequence
  process_swd_sequence-Safe processor request request_length s reads =
      ground (arith, invalid-Safe backend capacity old, finished)
    where
      finished :
          2 ≤ capacity
          → SafeOut capacity old (
              sequence_finish backend processor capacity (
                sequence_rounds backend (byte request 1) request request_length capacity (record {
                  input = 2;
                  output = 2;
                  success = processor.selected_port == 1;
                  response = old;
                  backend = s;
                })))
      finished room = sequence_finish-Safe processor _ (
          sequence_rounds-Safe (byte request 1) request request_length _ reads
            (omega arith, (room, refl)))

  pub process_info-Safe :
      (processor : DapProcessor) (request : List ℕ) (request_length : ℕ)
      → Safe capacity old (process_info processor request request_length old capacity)
  unfolding process_info
  process_info-Safe processor request request_length = ground (
    arith,
    invalid-Safe backend capacity old,
    drop-write_at capacity 0 (id_info ∷ length text % 2 ^ 8 ∷ []) old,
    drop-write_at capacity 2 text (write_at 0 (id_info ∷ length text % 2 ^ 8 ∷ []) old),
  )
    where
      text : List ℕ
      text = info_data processor (byte request 1)

  -- Two or three bytes at the front.
  pub front-Safe :
      (bs : List ℕ) → length bs ≤ capacity → Safe capacity old (length bs, write_at 0 bs old)
  front-Safe bs room = (room, drop-write_at capacity 0 bs old (omega (arith, room)))

  pub with_status-Safe :
      (needed : ℕ) (done : Bool × S) (processor : DapProcessor) (request : List ℕ)
      (request_length : ℕ) (s : S)
      → SafeOut capacity old
          (with_status needed done processor request request_length old capacity s)
  with_status-Safe needed done processor request request_length s = ground (
    arith,
    invalid-Safe backend capacity old,
    status_response-Safe (byte request 0) done.0 capacity old,
  )

  pub process_host_status-Safe :
      (processor : DapProcessor) (request : List ℕ) (request_length : ℕ) (s : S)
      → SafeOut capacity old
          (process_host_status backend processor request request_length old capacity s)
  unfolding process_host_status
  process_host_status-Safe processor request request_length s = ground (
    arith,
    invalid-Safe backend capacity old,
    status_response-Safe (byte request 0) true capacity old,
  )

  pub process_connect-Safe :
      (processor : DapProcessor) (request : List ℕ) (request_length : ℕ) (s : S)
      → SafeOut capacity old
          (process_connect backend processor request request_length old capacity s)
  unfolding process_connect
  process_connect-Safe processor request request_length s = ground (
    arith,
    invalid-Safe backend capacity old,
    front-Safe (byte request 0 ∷ 0 ∷ []),
    front-Safe (byte request 0 ∷ 1 ∷ []),
  )

  pub process_transfer_configure-Safe :
      (processor : DapProcessor) (request : List ℕ) (request_length : ℕ) (s : S)
      → SafeOut capacity old
          (process_transfer_configure backend processor request request_length old capacity s)
  unfolding process_transfer_configure
  process_transfer_configure-Safe processor request request_length s = ground (
    arith,
    invalid-Safe backend capacity old,
    status_response-Safe (byte request 0) true capacity old,
    status_response-Safe (byte request 0) false capacity old,
  )

  pub process_reset_target-Safe :
      (processor : DapProcessor) (request : List ℕ) (request_length : ℕ) (s : S)
      → SafeOut capacity old
          (process_reset_target backend processor request request_length old capacity s)
  unfolding process_reset_target
  process_reset_target-Safe processor request request_length s = ground (
    arith,
    invalid-Safe backend capacity old,
    front-Safe (byte request 0 ∷ dap_ok ∷ 0 ∷ []),
    front-Safe (byte request 0 ∷ dap_error ∷ 0 ∷ []),
  )

  pub process_swj_pins-Safe :
      (processor : DapProcessor) (request : List ℕ) (request_length : ℕ) (s : S)
      → SafeOut capacity old
          (process_swj_pins backend processor request request_length old capacity s)
  unfolding process_swj_pins
  process_swj_pins-Safe processor request request_length s =
      let pins = (pins_of backend (byte request 1) (byte request 2) (read_u32 request 3) s).0 in
      ground (arith, invalid-Safe backend capacity old, front-Safe (byte request 0 ∷ pins ∷ []))

  -- What is asked of the vendor commands, which another file implements.
  abbrev pub VendorSafe : Type 0
  VendorSafe =
      (f : Bool → List ℕ → ℕ → List ℕ → ℕ → S → ℕ × List ℕ × S)
      → backend.vendor_command ≡ some f
      → (connected : Bool) (request : List ℕ) (request_length : ℕ) (s : S)
      → Safe capacity old (
        (f connected request request_length old capacity s).0,
        (f connected request request_length old capacity s).1,
      )
