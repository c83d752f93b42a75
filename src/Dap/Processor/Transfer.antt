-- ===== src/Dap/Processor/Transfer.antt =====
-- The TRANSFER command: `process_transfer` of firmware/components/dap_protocol/dap_protocol.c.
use air_dap.Dap.{byte, id_transfer, transfer_read, transfer_match_value, size_max}
use air_dap.Dap.Request.{request_size}
use air_dap.Dap.Processor.{
  Backend, DapProcessor, Outcome, read_u32, write_u32, invalid_response, transfer_once, match_loop,
  has_bit, transfer_match_mask, transfer_timestamp, transfer_ok, transfer_mismatch, port_swd,
}
use air_dap.Prelude.{
  ℕ, zero, suc, ◌+◌, ◌%◌, ◌^◌, bit_or, Bool, true, false, not, ◌&&◌, ◌||◌, some, List, [], ◌∷◌,
  write_at, ltb, leb, ◌==◌, if◌then◌else◌,
}

-- The first loop: where the scan ends, and the response that the reads need.
unfoldable pub transfer_scan : ℕ → List ℕ → ℕ → ℕ → ℕ × ℕ
transfer_scan zero request scan required = (scan, required)
transfer_scan (suc left) request scan required =
    let transfer_request = byte request scan in
    let read = has_bit transfer_request transfer_read in
    let match_value = has_bit transfer_request transfer_match_value in
    transfer_scan left request (if not read || match_value then scan + 1 + 4 else scan + 1) (
      if read && not match_value
      then required + (if has_bit transfer_request transfer_timestamp then 8 else 4)
      else required)

-- The variables of the second loop.
pub record TransferRun (S : Type 0) : Type 0 where
  pub input : ℕ
  pub output : ℕ
  pub completed : ℕ
  pub status : ℕ
  pub pending_write : Bool
  pub response : List ℕ
  pub match_mask : ℕ
  pub backend : S

-- How a round ends: `continue`, `break`, or a return of `invalid_response`.
pub data Round (A : Type 0) : Type 0 where
  continues breaks fails : A → Round A

-- The rest of a loop after a round: `false` if it ended by a return of `invalid_response`.
unfoldable pub follow : {A : Type 0} → Round A → (A → Bool × A) → Bool × A
follow (continues a) rest = rest a
follow (breaks a) rest = (true, a)
follow (fails a) rest = (false, a)

module _ {S : Type 0} (backend : Backend S) where
  -- A round that compares what it reads; `wanted` has been read.
  unfoldable pub match_round : ℕ → ℕ → ℕ → TransferRun S → Round (TransferRun S)
  match_round retries transfer_request wanted run =
      let (matched, status, s) =
        match_loop backend (retries + 1) transfer_request run.match_mask wanted run.status
          run.backend in
      if matched
      then continues
          (record run { status = status; backend = s; completed = (run.completed + 1) % 2 ^ 8 })
      else breaks (record run {
        status = if status == transfer_ok then bit_or status transfer_mismatch else status;
        backend = s;
      })

  -- A round that reads or writes; the data to write has been read.
  unfoldable pub access_round : ℕ → ℕ → ℕ → TransferRun S → Round (TransferRun S)
  access_round capacity transfer_request word run =
      let read = has_bit transfer_request transfer_read in
      let timestamp = has_bit transfer_request transfer_timestamp in
      let bytes_needed = if timestamp then 8 else 4 in
      let (done, word', status, s) =
        transfer_once backend transfer_request word run.status run.backend in
      let run' = record run {
        status = status;
        backend = s;
        completed = (run.completed + 1) % 2 ^ 8;
        pending_write = not read;
      } in
      if not done
      then breaks (record run { status = status; backend = s })
      else if not read
      then continues run'
      else if ltb capacity (run.output + bytes_needed)
      then fails run'
      else if timestamp
      then continues (record run' {
        response = write_u32 (write_u32 run.response run.output 0) (run.output + 4) word';
        output = run.output + 8;
      })
      else continues (record run' {
        response = write_u32 run.response run.output word';
        output = run.output + 4;
      })

  -- One round of the second loop.
  unfoldable pub transfer_round :
      DapProcessor → List ℕ → ℕ → ℕ → TransferRun S → Round (TransferRun S)
  transfer_round processor request request_length capacity run =
      let transfer_request = byte request run.input in
      let read = has_bit transfer_request transfer_read in
      let match_value = has_bit transfer_request transfer_match_value in
      let input = run.input + 1 in
      let short = ltb request_length (input + 4) in
      let word = read_u32 request input in
      let seen = record run { input = input + 4 } in
      if leb request_length run.input
      then fails run
      else if has_bit transfer_request transfer_match_mask
      then (if read || short
          then fails run
          else continues (record run {
            match_mask = word;
            input = input + 4;
            completed = (run.completed + 1) % 2 ^ 8;
          }))
      else if (not read || match_value) && short
      then fails run
      else if match_value
      then match_round processor.match_retries transfer_request word seen
      else if read
      then access_round capacity transfer_request 0 (record run { input = input })
      else access_round capacity transfer_request word seen

  -- The second loop; the first argument counts the transfers left.
  unfoldable pub transfer_rounds :
      ℕ → DapProcessor → List ℕ → ℕ → ℕ → TransferRun S → Bool × TransferRun S
  transfer_rounds zero processor request request_length capacity run = (true, run)
  transfer_rounds (suc left) processor request request_length capacity run =
      follow (transfer_round processor request request_length capacity run)
        (transfer_rounds left processor request request_length capacity)

  -- After the second loop.
  unfoldable pub transfer_finish : DapProcessor → ℕ → Bool × TransferRun S → Outcome S
  transfer_finish processor capacity (false, run) =
      let (size, response) = invalid_response run.response capacity in
      record {
        size = size;
        response = response;
        processor = record processor { match_mask = run.match_mask };
        backend = run.backend;
      }
  transfer_finish processor capacity (true, run) =
      let flush = run.pending_write && run.status == transfer_ok in
      let (_, _, flushed, s) =
        transfer_once backend (bit_or transfer_read 0x0c) 0 run.status run.backend in
      record {
        size = run.output;
        response =
            write_at 1 (run.completed ∷ (if flush then flushed else run.status) ∷ []) run.response;
        processor = record processor { match_mask = run.match_mask };
        backend = if flush then s else run.backend;
      }

  -- Once the request has been found to be whole and the response to have room.
  unfoldable pub transfer_run : DapProcessor → List ℕ → ℕ → List ℕ → ℕ → S → Outcome S
  transfer_run processor request request_length response capacity s =
      let response' = write_at 0 (id_transfer ∷ 0 ∷ 0 ∷ []) response in
      if not (processor.selected_port == port_swd)
      then record { size = 3; response = response'; processor = processor; backend = s }
      else transfer_finish processor capacity (
          transfer_rounds (byte request 2) processor request request_length capacity (record {
            input = 3;
            output = 3;
            completed = 0;
            status = transfer_ok;
            pending_write = false;
            response = response';
            match_mask = processor.match_mask;
            backend = s;
          }))

  unfoldable pub process_transfer : DapProcessor → List ℕ → ℕ → List ℕ → ℕ → S → Outcome S
  process_transfer processor request request_length response capacity s =
      let framed_length = request_size (some request) request_length in
      let (scan, required) = transfer_scan (byte request 2) request 3 3 in
      let (size, refused) = invalid_response response capacity in
      let invalid : Outcome S = record {
        size = size;
        response = refused;
        processor = processor;
        backend = s;
      } in
      if ltb request_length 3
        || ltb capacity 3
        || framed_length == 0
        || framed_length == size_max
        || ltb capacity required
        || not (scan == framed_length)
      then invalid
      else transfer_run processor request request_length response capacity s
