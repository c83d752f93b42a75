-- ===== src/Dap/Processor/Sequence.antt =====
-- The SWD_SEQUENCE command: `process_swd_sequence` of firmware/components/dap_protocol/dap_protocol.c.
use air_dap.Dap.{byte, id_swd_sequence}
use air_dap.Dap.Processor.{
  Backend, DapProcessor, Outcome, invalid_response, has_bit, port_swd, dap_ok, dap_error,
}
use air_dap.Dap.Processor.Transfer.{follow, Round, continues, fails}
use air_dap.Prelude.{
  ℕ, zero, suc, ◌+◌, ◌/◌, bit_and, Bool, true, false, ◌||◌, Option, none, some, List, [], ◌∷◌, drop,
  write_at, zeros, ltb, leb, ◌==◌, if◌then◌else◌,
}

-- The bits of a sequence, by its info byte.
unfoldable pub sequence_bits : ℕ → ℕ
sequence_bits info = if bit_and info 0x3f == 0 then 64 else bit_and info 0x3f

-- The first loop: the response that the input sequences need, if the request is whole.
unfoldable pub sequence_scan : ℕ → List ℕ → ℕ → ℕ → ℕ → Option ℕ
sequence_scan zero request request_length scan required = some required
sequence_scan (suc left) request request_length scan required =
    let info = byte request scan in
    let byte_count = (sequence_bits info + 7) / 8 in
    let inputs = sequence_scan left request request_length (scan + 1) (required + byte_count) in
    let outputs = sequence_scan left request request_length (scan + 1 + byte_count) required in
    if leb request_length scan
    then none
    else if has_bit info 0x80
    then inputs
    else if ltb request_length (scan + 1 + byte_count)
    then none
    else outputs

-- The variables of the second loop.
pub record SequenceRun (S : Type 0) : Type 0 where
  pub input : ℕ
  pub output : ℕ
  pub success : Bool
  pub response : List ℕ
  pub backend : S

module _ {S : Type 0} (backend : Backend S) where
  -- `read_sequence`, unless a sequence has failed before; no backend counts as a failure.
  unfoldable pub read_bits_of : Bool → ℕ → S → Bool × List ℕ × S
  read_bits_of false bit_count s = (false, [], s)
  read_bits_of true bit_count s = elim backend.read_sequence [
    | none ↦ (false, [], s)
    | some read_sequence ↦ read_sequence bit_count s
  ]

  unfoldable pub write_bits_of : Bool → List ℕ → ℕ → S → Bool × S
  write_bits_of false bytes bit_count s = (false, s)
  write_bits_of true bytes bit_count s = elim backend.write_sequence [
    | none ↦ (false, s)
    | some write_sequence ↦ write_sequence bytes bit_count s
  ]

  unfoldable pub sequence_round : List ℕ → ℕ → ℕ → SequenceRun S → Round (SequenceRun S)
  sequence_round request request_length capacity run =
      let info = byte request run.input in
      let bit_count = sequence_bits info in
      let byte_count = (bit_count + 7) / 8 in
      let (read, bytes, s) = read_bits_of run.success bit_count run.backend in
      let (written, s') =
        write_bits_of run.success (drop (run.input + 1) request) bit_count run.backend in
      if leb request_length run.input
      then fails run
      else if has_bit info 0x80
      then (if ltb capacity (run.output + byte_count)
          then fails run
          else continues (record {
            input = run.input + 1;
            output = run.output + byte_count;
            success = read;
            -- The bytes are cleared, then the backend writes all that it has read from there on.
            response =
                write_at run.output bytes (write_at run.output (zeros byte_count) run.response);
            backend = s;
          }))
      else if ltb request_length (run.input + 1 + byte_count)
      then fails run
      else continues
          (record run { input = run.input + 1 + byte_count; success = written; backend = s' })

  unfoldable pub sequence_rounds : ℕ → List ℕ → ℕ → ℕ → SequenceRun S → Bool × SequenceRun S
  sequence_rounds zero request request_length capacity run = (true, run)
  sequence_rounds (suc left) request request_length capacity run =
      follow (sequence_round request request_length capacity run)
        (sequence_rounds left request request_length capacity)

  unfoldable pub sequence_finish : DapProcessor → ℕ → Bool × SequenceRun S → Outcome S
  sequence_finish processor capacity (false, run) =
      let (size, response) = invalid_response run.response capacity in
      record { size = size; response = response; processor = processor; backend = run.backend }
  sequence_finish processor capacity (true, run) = record {
    size = run.output;
    response =
        write_at 0 (id_swd_sequence ∷ (if run.success then dap_ok else dap_error) ∷ [])
          run.response;
    processor = processor;
    backend = run.backend;
  }

  unfoldable pub process_swd_sequence : DapProcessor → List ℕ → ℕ → List ℕ → ℕ → S → Outcome S
  process_swd_sequence processor request request_length response capacity s =
      let (size, refused) = invalid_response response capacity in
      let invalid : Outcome S = record {
        size = size;
        response = refused;
        processor = processor;
        backend = s;
      } in
      let run = sequence_finish processor capacity (
        sequence_rounds (byte request 1) request request_length capacity (record {
          input = 2;
          output = 2;
          success = processor.selected_port == port_swd;
          response = response;
          backend = s;
        })) in
      if ltb request_length 2 || ltb capacity 2
      then invalid
      else elim (sequence_scan (byte request 1) request request_length 2 2) [
        | none ↦ invalid
        | some required ↦ if ltb capacity required then invalid else run
      ]
