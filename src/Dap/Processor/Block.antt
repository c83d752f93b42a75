-- ===== src/Dap/Processor/Block.antt =====
-- The TRANSFER_BLOCK command: `process_transfer_block` of firmware/components/dap_protocol/dap_protocol.c.
use air_dap.Dap.{byte, read_u16, id_transfer_block, transfer_read}
use air_dap.Dap.Processor.{
  Backend, DapProcessor, Outcome, read_u32, write_u16, write_u32, invalid_response, transfer_once,
  has_bit, transfer_ok, port_swd,
}
use air_dap.Dap.Processor.Transfer.{follow, Round, continues, breaks, fails}
use air_dap.Prelude.{
  ℕ, zero, suc, ◌+◌, ◌-◌, ◌/◌, ◌%◌, ◌^◌, bit_or, Bool, true, false, not, ◌&&◌, ◌||◌, List, [], ◌∷◌,
  write_at, ltb, ◌==◌, if◌then◌else◌,
}

-- The variables of the loop.
pub record BlockRun (S : Type 0) : Type 0 where
  pub input : ℕ
  pub output : ℕ
  pub completed : ℕ
  pub status : ℕ
  pub response : List ℕ
  pub backend : S

module _ {S : Type 0} (backend : Backend S) where
  unfoldable pub block_round : ℕ → List ℕ → ℕ → ℕ → BlockRun S → Round (BlockRun S)
  block_round transfer_request request request_length capacity run =
      let read = has_bit transfer_request transfer_read in
      let word = if read then 0 else read_u32 request run.input in
      let input = if read then run.input else run.input + 4 in
      let (done, word', status, s) =
        transfer_once backend transfer_request word run.status run.backend in
      let run' = record run {
        input = input;
        status = status;
        backend = s;
        completed = (run.completed + 1) % 2 ^ 16;
      } in
      if not read && ltb request_length (run.input + 4) || read && ltb capacity (run.output + 4)
      then fails run
      else if not done
      then breaks (record run { input = input; status = status; backend = s })
      else if read
      then continues (record run' {
        response = write_u32 run.response run.output word';
        output = run.output + 4;
      })
      else continues run'

  -- The `for` of the function; the first argument counts the transfers left.
  unfoldable pub block_rounds : ℕ → ℕ → List ℕ → ℕ → ℕ → BlockRun S → Bool × BlockRun S
  block_rounds zero transfer_request request request_length capacity run = (true, run)
  block_rounds (suc left) transfer_request request request_length capacity run =
      follow (block_round transfer_request request request_length capacity run)
        (block_rounds left transfer_request request request_length capacity)

  -- After the loop.
  unfoldable pub block_finish : DapProcessor → ℕ → ℕ → Bool × BlockRun S → Outcome S
  block_finish processor transfer_request capacity (false, run) =
      let (size, response) = invalid_response run.response capacity in
      record { size = size; response = response; processor = processor; backend = run.backend }
  block_finish processor transfer_request capacity (true, run) =
      let flush =
        not (has_bit transfer_request transfer_read)
        && ltb 0 run.completed
        && run.status == transfer_ok in
      let (_, _, flushed, s) =
        transfer_once backend (bit_or transfer_read 0x0c) 0 run.status run.backend in
      record {
        size = run.output;
        response =
            write_at 3 ((if flush then flushed else run.status) ∷ [])
              (write_u16 run.response 1 run.completed);
        processor = processor;
        backend = if flush then s else run.backend;
      }

  -- Once the buffers have been found to be large enough.
  unfoldable pub block_run : DapProcessor → List ℕ → ℕ → List ℕ → ℕ → S → Outcome S
  block_run processor request request_length response capacity s =
      let response' = write_at 0 (id_transfer_block ∷ []) response in
      if processor.selected_port == port_swd
      then block_finish processor (byte request 4) capacity (
          block_rounds (read_u16 request 2) (byte request 4) request request_length capacity
            (record {
              input = 5;
              output = 4;
              completed = 0;
              status = transfer_ok;
              response = response';
              backend = s;
            }))
      else record {
        size = 4;
        response = write_at 3 (0 ∷ []) (write_u16 response' 1 0);
        processor = processor;
        backend = s;
      }

  unfoldable pub process_transfer_block : DapProcessor → List ℕ → ℕ → List ℕ → ℕ → S → Outcome S
  process_transfer_block processor request request_length response capacity s =
      let count = read_u16 request 2 in
      let read = has_bit (byte request 4) transfer_read in
      let (size, refused) = invalid_response response capacity in
      let invalid : Outcome S = record {
        size = size;
        response = refused;
        processor = processor;
        backend = s;
      } in
      if ltb request_length 5
        || ltb capacity 4
        || read && ltb ((capacity - 4) / 4) count
        || not read && ltb ((request_length - 5) / 4) count
      then invalid
      else block_run processor request request_length response capacity s
