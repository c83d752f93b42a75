-- ===== src/Ownership/Alone/Blocking.antt =====
-- A running operation and a suspended arbiter.
use air_dap.Ownership.Word.{
  ok, busy, Claim, Operation, zero_claim, owner_none, state_suspended, control_state,
  control_generation, is_active, is_owner, make_control, valid_claim, make_control_fields,
  generation_max, IsWord,
}
use air_dap.Ownership.Calls.{
  acquire, acquire_from, release_pins_to, release, operation_begin, control_begin,
  control_begin_from,
}
use air_dap.Ownership.Revocation.{
  revoke, revoke_from, revoke_owner, revoke_owner_from, suspend, suspend_loop, resume, resume_loop,
}
use air_dap.Ownership.Alone.{Answers, failing, run}
use air_dap.Ownership.Typing.Exchange.{control_generation-le}
use air_dap.Prelude.{
  ℕ, zero, suc, ◌≤◌, ◌≡◌, ◌⊎◌, refl, arith, Bool, true, false, Option, some, none, List, [], ◌∷◌,
  length,
}

module _ (b : Answers) (control : ℕ) (w : IsWord control) (running : is_active control ≡ true) where
  acquire_blocked :
      (owner : ℕ) (claim : Option Claim) → (run b (acquire owner claim) control).1 ≡ control
  unfolding run acquire acquire_from
  acquire_blocked owner claim = ground arith

  release_blocked : (claim : Option Claim) → (run b (release claim) control).1 ≡ control
  unfolding run release valid_claim is_owner
  release_blocked none = refl
  release_blocked (some claim) = ground (arith, make_control_fields claim.generation claim.owner)

  begin_blocked :
      (claim : Option Claim) (operation : Option Operation)
      → (run b (operation_begin claim operation) control).1 ≡ control
  unfolding run operation_begin valid_claim is_owner
  begin_blocked none operation = refl
  begin_blocked (some claim) operation =
      ground (arith, make_control_fields claim.generation claim.owner)

  control_begin_blocked :
      (owner : ℕ) (operation : Option Operation)
      → (run b (control_begin owner operation) control).1 ≡ control
  unfolding run control_begin control_begin_from
  control_begin_blocked owner operation = ground arith

  revoke_blocked :
      (owner : ℕ)
      → ((run b revoke control).1 ≡ control) × ((run b (revoke_owner owner) control).1 ≡ control)
  unfolding run revoke revoke_from revoke_owner revoke_owner_from
  revoke_blocked owner = ground arith

  suspend_blocked : (fuel : ℕ) → run b (suspend (suc fuel)) control ≡ (some busy, control)
  unfolding run suspend suspend_loop
  suspend_blocked fuel = ground arith

-- While the word shows a running operation, under an owner or under none, undisturbed calls leave it
-- alone: neither acquiring, nor releasing or starting another operation with any claim, nor reserving
-- control, nor revoking changes it, and suspending is refused as busy.
pub operation_blocks :
    (b : Answers) (control owner fuel : ℕ) (claim : Option Claim) (operation : Option Operation)
    → IsWord control
    → is_active control ≡ true
    → ((run b (acquire owner claim) control).1 ≡ control)
      × ((run b (release claim) control).1 ≡ control)
      × ((run b (operation_begin claim operation) control).1 ≡ control)
      × ((run b (control_begin owner operation) control).1 ≡ control)
      × ((run b revoke control).1 ≡ control)
      × ((run b (revoke_owner owner) control).1 ≡ control)
      × (run b (suspend (suc fuel)) control ≡ (some busy, control))
operation_blocks b control owner fuel claim operation w running = (
  acquire_blocked b control w running owner claim,
  release_blocked b control w running claim,
  begin_blocked b control w running claim operation,
  control_begin_blocked b control w running owner operation,
  (revoke_blocked b control w running owner).0,
  (revoke_blocked b control w running owner).1,
  suspend_blocked b control w running fuel,
)

suspends :
    (b : Answers) (spurious : List Bool) (control fuel : ℕ)
    → length spurious ≤ fuel
    → is_active control ≡ false
    → (control_state control ≡ owner_none) ⊎ (is_owner (control_state control) ≡ true)
    → (control_state control ≡ owner_none) ⊎ (b.frees ≡ true)
    → run (failing b spurious) (suspend_loop (suc fuel) control) control
      ≡ (some ok, make_control (control_generation control) state_suspended)
unfolding run suspend_loop release_pins_to is_owner
suspends b [] control fuel enough quiet present frees = ground arith
suspends b (true ∷ rest) control zero enough quiet present frees = absurd (omega (arith, enough))
suspends b (true ∷ rest) control (suc fuel) enough quiet present frees =
    let again = suspends b rest control fuel (omega (arith, enough)) quiet present frees in
    ground (arith, again)
suspends b (false ∷ rest) control fuel enough quiet present frees = ground arith

suspended_refuses :
    (b : Answers) (g owner : ℕ) (old : Claim)
    → g ≤ generation_max
    → is_owner owner ≡ true
    → let suspended = make_control g state_suspended in
      run b (acquire owner (some old)) suspended ≡ (some (busy, some zero_claim), suspended)
unfolding run acquire acquire_from is_owner
suspended_refuses b g owner old small owned = ground (arith, make_control_fields g state_suspended)

resumes :
    (b : Answers) (spurious : List Bool) (g fuel : ℕ)
    → length spurious ≤ fuel
    → g ≤ generation_max
    → run
        (failing b spurious)
        (resume_loop (suc fuel) (make_control g state_suspended))
        (make_control g state_suspended)
      ≡ (some ok, make_control g owner_none)
unfolding run resume_loop
resumes b [] g fuel enough small = ground (arith, make_control_fields g state_suspended)
resumes b (true ∷ rest) g zero enough small = absurd (omega (arith, enough))
resumes b (true ∷ rest) g (suc fuel) enough small =
    let again = resumes b rest g fuel (omega (arith, enough)) small in
    ground (arith, make_control_fields g state_suspended, again)
resumes b (false ∷ rest) g fuel enough small = ground (arith, make_control_fields g state_suspended)

-- Undisturbed but for weak exchanges that fail without a reason, one round of the loop more than the
-- failures that may come is enough to suspend a port without a running operation that is free, or that is
-- owned and whose pins can be released: the word then shows the suspended state under the same
-- generation. While it is suspended every owner is refused as busy, and as many rounds are enough to
-- resume, which leaves the port without an owner.
pub suspend-resume :
    (b : Answers) (control owner fuel : ℕ) (old : Claim)
    → IsWord control
    → length b.spurious ≤ fuel
    → is_active control ≡ false
    → is_owner owner ≡ true
    → (control_state control ≡ owner_none) ⊎ (is_owner (control_state control) ≡ true)
    → (control_state control ≡ owner_none) ⊎ (b.frees ≡ true)
    → let suspended = make_control (control_generation control) state_suspended in
      (run b (suspend (suc fuel)) control ≡ (some ok, suspended))
      × (run b (acquire owner (some old)) suspended ≡ (some (busy, some zero_claim), suspended))
      × (run b (resume (suc fuel)) suspended
          ≡ (some ok, make_control (control_generation control) owner_none))
unfolding run suspend resume
suspend-resume b control owner fuel old w enough quiet owned present frees = (
  suspends b b.spurious control fuel enough quiet present frees,
  suspended_refuses b (control_generation control) owner old (control_generation-le control w)
      owned,
  resumes b b.spurious (control_generation control) fuel enough (control_generation-le control w),
)
