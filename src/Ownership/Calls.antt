-- ===== src/Ownership/Calls.antt =====
-- The functions of firmware/components/dap_ownership/dap_ownership.c up to `operation_end`, action by
-- action. A pointer is an
-- `Option`; an output pointer is returned with what it points to.
use air_dap.Ownership.Word.{
  owner_none, state_transition, state_offline, state_suspended, state_uninitialized, generation_max,
  Result, ok, already_owner, busy, not_owner, offline, invalid_argument, invalid_state, Claim,
  Operation, zero_claim, is_owner, control_state, control_generation, is_active, make_control,
  set_active, clear_active, valid_claim,
}
use air_dap.Ownership.Program.{Program, ret, load, store, cas, line_reset, release_pins, install}
use air_dap.Prelude.{
  ℕ, ◌+◌, Bool, true, false, not, ◌&&◌, ◌||◌, Option, none, some, ◌==◌, if◌then◌else◌, is_some,
}

unfoldable pub claim_failure_result : ℕ → Claim → Result
claim_failure_result control claim =
    let state = control_state control in
    if state == state_offline
    then offline
    else if state == state_uninitialized
    then invalid_state
    else if state == state_suspended
    then busy
    else if state == state_transition
        || state == claim.owner
          && control_generation control == claim.generation
          && is_active control
    then busy
    else not_owner

-- `release_pins` of the source, and what the caller does with its result.
unfoldable pub release_pins_to : {A : Type 0} → ℕ → ℕ → (Result → Program A) → Program A
release_pins_to generation released_state k = release_pins λ released.
    if released
    then store (make_control generation released_state) (k ok)
    else store (make_control generation state_offline) (k offline)

-- Which function pointers of an `airdap_dap_ownership_backend_t` are not `NULL`.
pub record Backend : Type 0 where
  pub has_line_reset : Bool
  pub has_release_pins : Bool

abbrev pub backend_given : Option Backend → Bool
backend_given none = false
backend_given (some backend) = backend.has_line_reset && backend.has_release_pins

unfoldable pub initialize : Option Backend → Program Result
initialize backend =
    if not (backend_given backend)
    then ret invalid_argument
    else cas state_uninitialized state_transition (install (store owner_none (ret ok)))
        (λ observed. ret invalid_state)

unfoldable pub current : Program ℕ
current =
    load λ control.
      ret (if is_owner (control_state control) then control_state control else owner_none)

abbrev pub claim_of : ℕ → ℕ → Claim
claim_of owner generation = record { owner = owner; generation = generation }

-- After the compare-exchange of `airdap_dap_ownership_acquire` has succeeded.
unfoldable pub acquire_won : ℕ → ℕ → Program (Result × Option Claim)
acquire_won owner generation =
    if generation == generation_max
    then store (make_control generation state_offline) (ret (offline, some zero_claim))
    else line_reset λ done.
      if not done
      then release_pins_to generation owner_none (λ _. ret (offline, some zero_claim))
      else store (make_control (generation + 1) owner)
          (ret (ok, some (claim_of owner (generation + 1))))

-- After it has failed.
unfoldable pub acquire_lost : ℕ → ℕ → Program (Result × Option Claim)
acquire_lost owner observed =
    let observed_state = control_state observed in
    if observed_state == owner
    then ret (already_owner, some (claim_of owner (control_generation observed)))
    else if observed_state == state_offline
    then ret (offline, some zero_claim)
    else if observed_state == state_uninitialized
    then ret (invalid_state, some zero_claim)
    else ret (busy, some zero_claim)

unfoldable pub acquire_from : ℕ → ℕ → Program (Result × Option Claim)
acquire_from owner expected =
    let state = control_state expected in
    let generation = control_generation expected in
    if state == owner
    then ret (already_owner, some (claim_of owner generation))
    else if state == state_offline
    then ret (offline, some zero_claim)
    else if state == state_uninitialized
    then ret (invalid_state, some zero_claim)
    else if state == state_suspended
    then ret (busy, some zero_claim)
    else if not (state == owner_none) || is_active expected
    then ret (busy, some zero_claim)
    else cas expected (make_control generation state_transition) (acquire_won owner generation)
        (acquire_lost owner)

unfoldable pub acquire : ℕ → Option Claim → Program (Result × Option Claim)
acquire owner claim =
    if not (is_some claim) || not (is_owner owner)
    then ret (invalid_argument, claim)
    else load (acquire_from owner)

-- The claim behind a pointer that is not `NULL`.
abbrev pub the_claim : Option Claim → Claim
the_claim none = zero_claim
the_claim (some claim) = claim

unfoldable pub release : Option Claim → Program Result
release pointer =
    let claim = the_claim pointer in
    if not (valid_claim pointer)
    then ret invalid_argument
    else cas (make_control claim.generation claim.owner)
        (make_control claim.generation state_transition)
        (release_pins_to claim.generation owner_none ret)
        (λ observed. ret (claim_failure_result observed claim))

abbrev pub is_running : Option Operation → Bool
is_running none = false
is_running (some operation) = operation.active

abbrev pub started : ℕ → ℕ → Option Operation
started owner generation = some (record { owner = owner; generation = generation; active = true })

unfoldable pub operation_begin :
    Option Claim → Option Operation → Program (Result × Option Operation)
operation_begin pointer operation =
    let claim = the_claim pointer in
    let expected = make_control claim.generation claim.owner in
    if not (valid_claim pointer) || not (is_some operation)
    then ret (invalid_argument, operation)
    else if is_running operation
    then ret (invalid_state, operation)
    else cas expected (set_active expected) (ret (ok, started claim.owner claim.generation))
        (λ observed. ret (claim_failure_result observed claim, operation))

unfoldable pub control_begin_from : ℕ → Option Operation → ℕ → Program (Result × Option Operation)
control_begin_from owner operation control =
    let state = control_state control in
    if state == state_offline
    then ret (offline, operation)
    else if state == state_uninitialized
    then ret (invalid_state, operation)
    else if not (state == owner_none) && not (state == owner) || is_active control
    then ret (busy, operation)
    else cas control (set_active control) (ret (ok, started state (control_generation control)))
        (λ observed. ret (busy, operation))

unfoldable pub control_begin : ℕ → Option Operation → Program (Result × Option Operation)
control_begin owner operation =
    if not (is_owner owner) || not (is_some operation)
    then ret (invalid_argument, operation)
    else if is_running operation
    then ret (invalid_state, operation)
    else load (control_begin_from owner operation)

abbrev pub ended : Option Operation
ended = some (record { owner = owner_none; generation = 0; active = false })

-- `operation` may hold any numbers: its pointer is the caller's.
unfoldable pub operation_end : Option Operation → Program (Option Operation)
operation_end none = ret none
operation_end (some operation) =
    let expected = set_active (make_control operation.generation operation.owner) in
    if not operation.active
    then ret (some operation)
    else cas expected (clear_active expected) (ret ended) (λ observed. ret ended)
