-- ===== src/Ownership/Alone/Lifecycle.antt =====
-- One owner's use of the port, from acquiring to releasing it.
use air_dap.Ownership.Word.{
  Result, ok, already_owner, busy, offline, invalid_state, Claim, Operation, zero_claim, owner_none,
  state_offline, state_uninitialized, control_state, control_generation, is_active, is_owner,
  make_control, set_active, valid_claim, make_control_fields, generation_max,
  clear_active-set_active,
}
use air_dap.Ownership.Calls.{
  acquire, acquire_from, acquire_won, release_pins_to, release, operation_begin, operation_end,
  claim_of, started, ended,
}
use air_dap.Ownership.Alone.{Answers, run}
use air_dap.Prelude.{
  ℕ, ◌+◌, ◌≤◌, ◌<◌, ◌≡◌, ◌∙◌, arith, true, false, Option, some, ◌==◌, if◌then◌else◌, ◌||◌, not,
}

-- What `airdap_dap_ownership_acquire` does to the word `control`, for an owner and a claim pointer that
-- are given.
unfoldable pub acquire_spec : Answers → ℕ → ℕ → Option (Result × Option Claim) × ℕ
acquire_spec b owner control =
    let g = control_generation control in
    if control_state control == owner
    then (some (already_owner, some (claim_of owner g)), control)
    else if control_state control == state_offline
    then (some (offline, some zero_claim), control)
    else if control_state control == state_uninitialized
    then (some (invalid_state, some zero_claim), control)
    else if not (control_state control == owner_none) || is_active control
    then (some (busy, some zero_claim), control)
    else if g == generation_max
    then (some (offline, some zero_claim), make_control g state_offline)
    else if b.resets
    then (some (ok, some (claim_of owner (g + 1))), make_control (g + 1) owner)
    else (
      some (offline, some zero_claim),
      make_control g (if b.frees then owner_none else state_offline),
    )

-- Undisturbed, `airdap_dap_ownership_acquire` with a named owner and a claim pointer does what
-- `acquire_spec` says, for every control word and whatever the backend answers.
pub acquire_alone :
    (b : Answers) (owner control : ℕ) (old : Claim)
    → is_owner owner ≡ true
    → run b (acquire owner (some old)) control ≡ acquire_spec b owner control
unfolding run acquire acquire_from acquire_won release_pins_to acquire_spec
acquire_alone b owner control old owned = ground arith

acquire_spec-free :
    (b : Answers) (owner control : ℕ)
    → is_owner owner ≡ true
    → control_state control ≡ owner_none
    → is_active control ≡ false
    → control_generation control < generation_max
    → b.resets ≡ true
    → acquire_spec b owner control ≡ (
      some (ok, some (claim_of owner (control_generation control + 1))),
      make_control (control_generation control + 1) owner,
    )
unfolding acquire_spec is_owner
acquire_spec-free b owner control owned unowned quiet more resets = ground arith

claim_of-valid :
    (owner g : ℕ)
    → is_owner owner ≡ true
    → 0 < g
    → g ≤ generation_max
    → valid_claim (some (claim_of owner g)) ≡ true
unfolding valid_claim is_owner
claim_of-valid owner g owned pos small = ground arith

begin_alone :
    (b : Answers) (claim : Claim) (operation : Operation)
    → valid_claim (some claim) ≡ true
    → operation.active ≡ false
    → run b
        (operation_begin (some claim) (some operation))
        (make_control claim.generation claim.owner)
      ≡ (
        some (ok, started claim.owner claim.generation),
        set_active (make_control claim.generation claim.owner),
      )
unfolding run operation_begin
begin_alone b claim operation valid idle = ground arith

release_alone :
    (b : Answers) (claim : Claim)
    → valid_claim (some claim) ≡ true
    → run b (release (some claim)) (make_control claim.generation claim.owner) ≡ (
      some (if b.frees then ok else offline),
      make_control claim.generation (if b.frees then owner_none else state_offline),
    )
unfolding run release release_pins_to
release_alone b claim valid = ground arith

end_alone :
    (b : Answers) (owner g : ℕ)
    → g ≤ generation_max
    → is_owner owner ≡ true
    → run b (operation_end (started owner g)) (set_active (make_control g owner))
      ≡ (some ended, make_control g owner)
unfolding run operation_end is_owner
end_alone b owner g small owned =
    ground (arith, clear_active-set_active (make_control g owner), make_control_fields g owner)

-- Undisturbed, with the port free, a generation left and a line reset that succeeds: the owner gets a
-- claim under the next generation; the claim starts an operation; ending the
-- operation brings the word back; and releasing the claim leaves the port free, or offline if the
-- pins cannot be released, under that generation.
pub lifecycle :
    (b : Answers) (owner control : ℕ) (old : Claim) (operation : Operation)
    → is_owner owner ≡ true
    → control_state control ≡ owner_none
    → is_active control ≡ false
    → control_generation control < generation_max
    → b.resets ≡ true
    → operation.active ≡ false
    → let g = control_generation control + 1 in
      let claim = claim_of owner g in
      let held = make_control g owner in
      (run b (acquire owner (some old)) control ≡ (some (ok, some claim), held))
      × (run b (operation_begin (some claim) (some operation)) held
          ≡ (some (ok, started owner g), set_active held))
      × (run b (operation_end (started owner g)) (set_active held) ≡ (some ended, held))
      × (run b (release (some claim)) held ≡ (
        some (if b.frees then ok else offline),
        make_control g (if b.frees then owner_none else state_offline),
      ))
unfolding is_owner
lifecycle b owner control old operation owned unowned quiet more resets idle =
    (acquire_alone b owner control old owned ∙ acquired, began, finished, released)
  where
    g : ℕ
    g = control_generation control + 1

    held : ℕ
    held = make_control g owner

    acquired : acquire_spec b owner control ≡ (some (ok, some (claim_of owner g)), held)
    acquired = acquire_spec-free b owner control owned unowned quiet more resets

    valid : valid_claim (some (claim_of owner g)) ≡ true
    valid = claim_of-valid owner g owned (omega arith) (omega arith)

    began :
        run b (operation_begin (some (claim_of owner g)) (some operation)) held
        ≡ (some (ok, started owner g), set_active held)
    began = begin_alone b (claim_of owner g) operation valid idle

    finished : run b (operation_end (started owner g)) (set_active held) ≡ (some ended, held)
    finished = end_alone b owner g (omega arith) owned

    released : run b (release (some (claim_of owner g))) held ≡ (
      some (if b.frees then ok else offline),
      make_control g (if b.frees then owner_none else state_offline),
    )
    released = release_alone b (claim_of owner g) valid
