-- ===== src/Dap/Processor/Packet/Safety.antt =====
-- What the processor writes to the response buffer, command by command.
use air_dap.Dap.{byte, id_transfer}
use air_dap.Dap.Processor.{
  Backend, DapProcessor, Outcome, invalid_response, status_response, transfer_once, write_u32,
  u32_le, read_u32, port_swd,
}
use air_dap.Dap.Processor.Transfer.{
  follow, TransferRun, Round, continues, breaks, fails, match_round, access_round, transfer_round,
  transfer_rounds, transfer_finish, transfer_run, process_transfer,
}
use air_dap.Prelude.{
  ℕ, zero, suc, ◌+◌, ◌≤◌, ◌≡◌, refl, ◌∙◌, arith, Bool, true, false, List, [], ◌∷◌, length, drop,
  write_at, drop-write_at, Bool-cases, inl, inr, not, ◌==◌,
}

-- A size within the capacity, and no byte of the buffer changed from the capacity on.
abbrev pub Safe : ℕ → List ℕ → ℕ × List ℕ → Type 0
Safe capacity old (size, response) =
    (size ≤ capacity) × (drop capacity response ≡ drop capacity old)

abbrev pub SafeOut : {S : Type 0} → ℕ → List ℕ → Outcome S → Type 0
SafeOut capacity old out = Safe capacity old (out.size, out.response)

pub write_at-Safe :
    (capacity n size : ℕ) (bs old response : List ℕ)
    → Safe capacity old (size, response)
    → n + length bs ≤ capacity
    → Safe capacity old (size, write_at n bs response)
write_at-Safe capacity n size bs old response h room =
    (h.0, drop-write_at capacity n bs response room ∙ h.1)

pub invalid_response-Safe :
    (capacity size : ℕ) (old response : List ℕ)
    → Safe capacity old (size, response)
    → Safe capacity old (invalid_response response capacity)
unfolding invalid_response
invalid_response-Safe capacity size old response h =
    ground (arith, h.1, drop-write_at capacity 0 (0xff ∷ []) response)

pub status_response-Safe :
    (command : ℕ) (success : Bool) (capacity : ℕ) (old : List ℕ)
    → Safe capacity old (status_response command success old capacity)
unfolding status_response invalid_response
status_response-Safe command true capacity old = ground (
  arith,
  drop-write_at capacity 0 (command ∷ 0x00 ∷ []) old,
  drop-write_at capacity 0 (0xff ∷ []) old,
)
status_response-Safe command false capacity old = ground (
  arith,
  drop-write_at capacity 0 (command ∷ 0xff ∷ []) old,
  drop-write_at capacity 0 (0xff ∷ []) old,
)

pub drop-write_u32 :
    (capacity : ℕ) (response : List ℕ) (n value : ℕ)
    → n + 4 ≤ capacity
    → drop capacity (write_u32 response n value) ≡ drop capacity response
unfolding write_u32
drop-write_u32 capacity response n value h = drop-write_at capacity n (u32_le value) response h

abbrev pub SafeRound : {A : Type 0} → (A → Type 0) → Round A → Type 0
SafeRound P (continues a) = P a
SafeRound P (breaks a) = P a
SafeRound P (fails a) = P a

pub follow-Safe :
    {A : Type 0} (P : A → Type 0) (r : Round A) (rest : A → Bool × A)
    → SafeRound P r
    → ((a : A) → P a → P (rest a).1)
    → P (follow r rest).1
unfolding follow
follow-Safe P (continues a) rest h more = more a h
follow-Safe P (breaks a) rest h more = h
follow-Safe P (fails a) rest h more = h

module _ {S : Type 0} (backend : Backend S) (capacity : ℕ) (old : List ℕ) where
  SafeRun : TransferRun S → Type 0
  SafeRun run = (3 ≤ capacity) × Safe capacity old (run.output, run.response)

  match_round-Safe :
      (retries transfer_request wanted : ℕ) (run : TransferRun S)
      → SafeRun run
      → SafeRound SafeRun (match_round backend retries transfer_request wanted run)
  unfolding match_round SafeRun
  match_round-Safe retries transfer_request wanted run h = ground arith

  access_round-Safe :
      (transfer_request word : ℕ) (run : TransferRun S)
      → SafeRun run
      → SafeRound SafeRun (access_round backend capacity transfer_request word run)
  unfolding access_round SafeRun
  access_round-Safe transfer_request word run h =
      let word' = (transfer_once backend transfer_request word run.status run.backend).1 in
      ground (
        arith,
        h,
        drop-write_u32 capacity run.response run.output 0,
        drop-write_u32 capacity run.response run.output word',
        drop-write_u32 capacity (write_u32 run.response run.output 0) (run.output + 4) word',
      )

  transfer_round-Safe :
      (processor : DapProcessor) (request : List ℕ) (request_length : ℕ) (run : TransferRun S)
      → SafeRun run
      → SafeRound SafeRun (transfer_round backend processor request request_length capacity run)
  unfolding transfer_round SafeRun
  transfer_round-Safe processor request request_length run h = ground (
    arith,
    h,
    match_round-Safe processor.match_retries treq word (record run { input = run.input + 1 + 4 }),
    access_round-Safe treq 0 (record run { input = run.input + 1 }),
    access_round-Safe treq word (record run { input = run.input + 1 + 4 }),
  )
    where
      treq : ℕ
      treq = byte request run.input

      word : ℕ
      word = read_u32 request (run.input + 1)

  transfer_rounds-Safe :
      (left : ℕ) (processor : DapProcessor) (request : List ℕ) (request_length : ℕ)
      (run : TransferRun S)
      → SafeRun run
      → SafeRun (transfer_rounds backend left processor request request_length capacity run).1
  unfolding transfer_rounds
  transfer_rounds-Safe zero processor request request_length run h = h
  transfer_rounds-Safe (suc left) processor request request_length run h =
      follow-Safe SafeRun (transfer_round backend processor request request_length capacity run)
        (transfer_rounds backend left processor request request_length capacity)
        (transfer_round-Safe processor request request_length run h)
        (transfer_rounds-Safe left processor request request_length)

  transfer_finish-Safe :
      (processor : DapProcessor) (r : Bool × TransferRun S)
      → SafeRun r.1
      → SafeOut capacity old (transfer_finish backend processor capacity r)
  unfolding transfer_finish SafeRun
  transfer_finish-Safe processor (false, run) h =
      invalid_response-Safe capacity run.output old run.response h.1
  transfer_finish-Safe processor (true, run) h =
      write_at-Safe capacity 1 run.output (_ ∷ _ ∷ []) old run.response h.1 (omega (arith, h.0))

  pub invalid-Safe : Safe capacity old (invalid_response old capacity)
  invalid-Safe = invalid_response-Safe capacity 0 old old (omega arith, refl)

  transfer_run-Safe :
      (processor : DapProcessor) (request : List ℕ) (request_length : ℕ) (s : S)
      → 3 ≤ capacity
      → SafeOut capacity old (transfer_run backend processor request request_length old capacity s)
  unfolding transfer_run SafeRun
  transfer_run-Safe processor request request_length s room =
      elim (Bool-cases (not (processor.selected_port == port_swd))) [
        | inl e ↦ rw e cleared
        | inr e ↦ rw e (
            transfer_finish-Safe processor _ (
              transfer_rounds-Safe (byte request 2) processor request request_length _
                (room, cleared)))
      ]
    where
      cleared : Safe capacity old (3, write_at 0 (id_transfer ∷ 0 ∷ 0 ∷ []) old)
      cleared =
          (room, drop-write_at capacity 0 (id_transfer ∷ 0 ∷ 0 ∷ []) old (omega (arith, room)))

  pub process_transfer-Safe :
      (processor : DapProcessor) (request : List ℕ) (request_length : ℕ) (s : S)
      → SafeOut capacity old
          (process_transfer backend processor request request_length old capacity s)
  unfolding process_transfer
  process_transfer-Safe processor request request_length s =
      ground (arith, invalid-Safe, transfer_run-Safe processor request request_length s)
