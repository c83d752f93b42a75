-- ===== src/Swd/Order.antt =====
-- Who drives the data line.
use air_dap.Swd.{
  EspError, ok, invalid_arg, invalid_response, invalid_crc, timed_out, driver, SwdIo, SwdRequest,
  Bus, done, bind, is_ok,
}
use air_dap.Swd.Transfer.{
  restore_host_and_idle, skip_data, complete_protocol_error, complete_error_data_phase, TransferOut,
  with_outputs, receive, read_phase, write_phase, acknowledged, transfer_attempt, transfer_loop,
  protocol_transfer, protocol_connect, ack_ok, ack_wait, ack_fault, swd_read, send, write_then,
  connect_result, ack_none, connect_wait_retries, io_is_valid, request_is_valid, idcode_request,
}
use air_dap.Swd.Drive.{
  Line, by_host, lost, driven, by_target, Orderly, Restored, Orderly-bind, turned-Orderly,
  write_data-Orderly, restore-Orderly, skip_data-Orderly, error_phase-Orderly, not_ok, is_ok-ok,
}
use air_dap.Prelude.{
  ℕ, zero, suc, ◌+◌, ◌≡◌, ◌≢◌, refl, arith, Bool, true, false, not, ◌&&◌, ◌||◌, Option, none, some,
  ◌==◌, if◌then◌else◌, Bool-cases, inl, inr, subst, sym, ◌%◌, ◌^◌, is_some,
}

-- The same of the result of a transfer.
abbrev pub RestoredOut : Line → TransferOut → Type 0
RestoredOut line out = out.error ≡ ok → line ≡ by_host

failing-Orderly :
    (io : SwdIo) (word ack : ℕ) (e : EspError)
    → is_ok e ≡ false
    → Orderly RestoredOut by_target
        (bind (restore_host_and_idle io) (λ _. done (with_outputs word ack e)))
failing-Orderly io word ack e x =
    Orderly-bind Restored RestoredOut _ (restore_host_and_idle io) by_target (restore-Orderly io)
      (λ h a r q. absurd (not_ok e x q))

read_phase-Orderly :
    (io : SwdIo) (word ack : ℕ) → Orderly RestoredOut by_target (read_phase io word ack)
unfolding read_phase
read_phase-Orderly io word ack = (
  refl,
  λ e b. elim (Bool-cases (not (is_ok e))) [
    | inl x ↦ rw x (failing-Orderly io word ack e (ground (arith, x)))
    | inr x ↦ rw x (
        Orderly-bind Restored RestoredOut _ (restore_host_and_idle io) by_target
          (restore-Orderly io) (kept b))
  ],
)
  where
    kept :
        (b : ℕ) (h : Line) (a : EspError)
        → Restored h a
        → RestoredOut h (if is_ok a then receive word ack b else with_outputs word ack a)
    kept b h a r = elim (Bool-cases (is_ok a)) [
      | inl x ↦ rw x (λ _. r (is_ok-ok a x))
      | inr x ↦ rw x (λ q. absurd (not_ok a x q))
    ]

write_phase-Orderly : (io : SwdIo) (word : ℕ) → Orderly Restored by_target (write_phase io word)
unfolding write_phase
write_phase-Orderly io word = (refl, λ e. turned-Orderly e _ (write_data-Orderly io (send word)))

acknowledged-Orderly :
    (io : SwdIo) (request : SwdRequest) (word ack : ℕ)
    → Orderly RestoredOut by_target (acknowledged io request word ack)
unfolding acknowledged complete_protocol_error
acknowledged-Orderly io request word ack =
    elim (Bool-cases (not (ack == ack_ok) && not (ack == ack_wait) && not (ack == ack_fault))) [
      | inl x ↦ rw x (
          Orderly-bind Restored RestoredOut _ (skip_data io) by_target (skip_data-Orderly io)
            refused)
      | inr x ↦ rw x (elim (Bool-cases (not (ack == ack_ok))) [
        | inl y ↦ rw y (
            Orderly-bind Restored RestoredOut _ (complete_error_data_phase io request) by_target
              (error_phase-Orderly io request) (λ h a r. r))
        | inr y ↦ rw y (elim (Bool-cases (request.direction == swd_read)) [
          | inl z ↦ rw z (read_phase-Orderly io word ack)
          | inr z ↦ rw z (
              Orderly-bind Restored RestoredOut _ (write_phase io word) by_target
                (write_phase-Orderly io word) (λ h a r. r))
        ])
      ])
    ]
  where
    refused :
        (h : Line) (a : EspError)
        → Restored h a
        → RestoredOut h (with_outputs word ack (if is_ok a then invalid_response else a))
    refused h a r = elim (Bool-cases (is_ok a)) [
      | inl x ↦ rw x (λ q. cc)
      | inr x ↦ rw x (λ q. absurd (not_ok a x q))
    ]

attempt-Orderly :
    (io : SwdIo) (request : SwdRequest) (word ack : ℕ)
    → Orderly RestoredOut by_host (transfer_attempt io request word ack)
unfolding transfer_attempt
attempt-Orderly io request word ack = (
  refl,
  λ e. elim (Bool-cases (not (is_ok e))) [
    | inl x ↦ rw x (λ _. refl)
    | inr x ↦ rw x (
      refl,
      λ e'. elim (Bool-cases (is_ok e')) [
        | inl y ↦ rw y (
          refl,
          λ e'' b. elim (Bool-cases (not (is_ok e''))) [
            | inl z ↦ rw z (failing-Orderly io word ack e'' (ground (arith, z)))
            | inr z ↦ rw z (acknowledged-Orderly io request word (b % 2 ^ 32))
          ],
        )
        | inr y ↦ rw y (λ q. absurd (not_ok e' y q))
      ],
    )
  ],
)

again_Orderly :
    (left : ℕ) (io : SwdIo) (request : SwdRequest) (h : Line) (out : TransferOut)
    → RestoredOut h out
    → Orderly RestoredOut by_host (transfer_loop left io request out.word out.ack)
    → Orderly RestoredOut h (elim (not (is_ok out.error) || not (out.ack == ack_wait)) [
      | true ↦ done out
      | false ↦ transfer_loop left io request out.word out.ack
    ])
again_Orderly left io request h out r next =
    elim (Bool-cases (not (is_ok out.error) || not (out.ack == ack_wait))) [
      | inl x ↦ rw x r
      | inr x ↦ rw x (
          subst
            (λ (t : Line). Orderly RestoredOut t (transfer_loop left io request out.word out.ack))
            (sym (r (is_ok-ok out.error (ground (arith, x))))) next)
    ]

loop-Orderly :
    (left : ℕ) (io : SwdIo) (request : SwdRequest) (word ack : ℕ)
    → Orderly RestoredOut by_host (transfer_loop left io request word ack)
unfolding transfer_loop
loop-Orderly zero io request word ack = λ _. refl
loop-Orderly (suc left) io request word ack =
    Orderly-bind RestoredOut RestoredOut _ (transfer_attempt io request word ack) by_host
      (attempt-Orderly io request word ack)
      (λ h out r.
        again_Orderly left io request h out r (loop-Orderly left io request out.word out.ack))

-- When `airdap_swd_protocol_transfer` is called while the host drives the line, then whatever the
-- operations of the wire answer, at every attempt, it writes only while the host drives the line, reads
-- only while the target does, and turns the line only to the other side; after a turnaround that failed
-- it does nothing more on the wire, neither at this attempt nor at another; and if it returns OK the host drives the line again.
pub transfer-Orderly :
    (io : Option SwdIo) (request : Option SwdRequest) (word : Option ℕ) (wait_retries : ℕ)
    (ack : Option ℕ)
    → Orderly
        (λ h out. out.0 ≡ ok → h ≡ by_host)
        by_host
        (protocol_transfer io request word wait_retries ack)
unfolding protocol_transfer
transfer-Orderly none request word n ack = λ q. refl
transfer-Orderly (some io) none word n ack = λ q. refl
transfer-Orderly (some io) (some request) none n ack = λ q. refl
transfer-Orderly (some io) (some request) (some word) n none = λ q. refl
transfer-Orderly (some io) (some request) (some word) n (some ack) =
    elim (Bool-cases (not (io_is_valid (some io)) || not (request_is_valid (some request)))) [
      | inl x ↦ rw x (λ q. refl)
      | inr x ↦ rw x (
          Orderly-bind RestoredOut _ _ (transfer_loop (n + 1) io request word ack) by_host
            (loop-Orderly (n + 1) io request word ack) (λ h a r. r))
    ]

connect_result-restored :
    (h : Line) (out : EspError × Option ℕ × Option ℕ)
    → (out.0 ≡ ok → h ≡ by_host)
    → (connect_result out).0 ≡ ok
    → h ≡ by_host
unfolding connect_result
connect_result-restored h (ok, idcode, ack) r q = r refl
connect_result-restored h (invalid_arg, idcode, ack) r q = r q
connect_result-restored h (invalid_response, idcode, ack) r q = r q
connect_result-restored h (invalid_crc, idcode, ack) r q = r q
connect_result-restored h (timed_out, idcode, ack) r q = r q
connect_result-restored h (driver n, idcode, ack) r q = r q

-- At the end of `airdap_swd_protocol_connect`.
abbrev pub Connected : Line → EspError × Option ℕ → Type 0
Connected h out = out.0 ≡ ok → h ≡ by_host

write_then-Orderly :
    (bits n : ℕ) (idcode : Option ℕ) (next : Bus (EspError × Option ℕ))
    → Orderly Connected by_host next
    → Orderly Connected by_host (write_then bits n idcode next)
unfolding write_then
write_then-Orderly bits n idcode next o =
    (refl, λ e. elim (Bool-cases (is_ok e)) [ inl x ↦ rw x o | inr x ↦ rw x (λ q. refl) ])

driven-ne-lost : (b : Bool) → driven b ≢ lost
driven-ne-lost true e = cc
driven-ne-lost false e = cc

-- Whoever drives the line when `airdap_swd_protocol_connect` is called and whatever the operations of
-- the wire answer, it writes only while the host drives the line, reads only while the target does,
-- turns the line only to the other side, does nothing more on the wire after a turnaround that failed, and leaves
-- the line to the host if it returns OK.
pub connect-Orderly :
    (io : Option SwdIo) (idcode : Option ℕ) (host : Bool)
    → Orderly Connected (driven host) (protocol_connect io idcode)
unfolding protocol_connect
connect-Orderly io idcode host = elim (Bool-cases (not (io_is_valid io) || not (is_some idcode))) [
  | inl x ↦ rw x (λ q. cc)
  | inr x ↦ rw x (
    driven-ne-lost host,
    λ e. elim (Bool-cases (is_ok e)) [
      | inl y ↦ rw y (
          write_then-Orderly _ _ idcode _ (
            write_then-Orderly _ _ idcode _
              (write_then-Orderly _ _ idcode _ (write_then-Orderly _ _ idcode _ transfers))))
      | inr y ↦ rw y (λ q. absurd (not_ok e y q))
    ],
  )
]
  where
    transfers : Orderly Connected by_host (
        bind
          (protocol_transfer io (some idcode_request) idcode connect_wait_retries (some ack_none))
          (λ out. done (connect_result out)))
    transfers =
        Orderly-bind (λ h out. out.0 ≡ ok → h ≡ by_host) Connected _ _ by_host
          (transfer-Orderly io (some idcode_request) idcode connect_wait_retries (some ack_none))
          connect_result-restored
