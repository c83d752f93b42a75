-- ===== src/Ownership/Typing/Calls.antt =====
-- Every function of the arbiter keeps to the discipline, whatever its arguments.
use air_dap.Ownership.Word.{
  owner_none, state_transition, state_suspended, state_uninitialized, generation_max, Claim,
  Operation, control_state, control_generation, is_active, is_owner, make_control, valid_claim,
  IsWord, make_control_fields, is_active-set_active,
}
use air_dap.Ownership.Program.{ret}
use air_dap.Ownership.Calls.{
  Backend, initialize, current, acquire_lost, acquire_from, acquire, release_pins_to, release,
  operation_begin, control_begin_from, control_begin, operation_end, is_running, backend_given,
}
use air_dap.Ownership.Revocation.{
  revoke_from, revoke, revoke_owner_from, revoke_owner, suspend_loop, suspend, resume_loop, resume,
}
use air_dap.Ownership.Typing.{free, holding, Takes, Settles, Disciplined, Disciplined-if}
use air_dap.Ownership.Typing.Exchange.{
  Takes-transition, Keeps-state, Keeps-set_active, Keeps-clear_active, control_generation-le,
}
use air_dap.Ownership.Typing.Settle.{release_pins_to-Disciplined, acquire_won-Disciplined}
use air_dap.Prelude.{
  ℕ, zero, suc, ◌≤◌, ◌<◌, ◌≡◌, inl, inr, arith, true, not, ◌||◌, Option, none, some, refl, is_some,
}

acquire_lost-Disciplined : (owner v : ℕ) → Disciplined (acquire_lost owner v) free
unfolding acquire_lost
acquire_lost-Disciplined owner v = ground arith

acquire_from-Disciplined :
    (owner control : ℕ)
    → is_owner owner ≡ true
    → IsWord control
    → Disciplined (acquire_from owner control) free
unfolding acquire_from
acquire_from-Disciplined owner control owned w = ground (
  arith,
  Takes-transition control w,
  acquire_won-Disciplined owner (control_generation control) (control_generation-le control w),
  acquire_lost-Disciplined owner,
)

pub initialize-Disciplined : (backend : Option Backend) → Disciplined (initialize backend) free
unfolding initialize control_state control_generation is_active is_owner
initialize-Disciplined backend =
    Disciplined-if free (not (backend_given backend)) _ _ (λ _. tt)
      (λ _. (λ _. inl (boot, (booted, tt)), λ _ _. tt))
  where
    boot : Takes state_uninitialized state_transition
    boot = record {
      from = omega arith;
      quiet = refl;
      to = refl;
      word = record { fits = omega arith; idle = λ e. cc };
      calm = refl;
      generation_lem = refl;
    }

    booted : Settles (control_generation state_uninitialized) owner_none
    booted = record {
      to = omega arith;
      word = record { fits = omega arith; idle = λ e. cc };
      calm = refl;
      generation_lem = inl (refl, refl);
    }

pub current-Disciplined : Disciplined current free
unfolding current
current-Disciplined = λ v w. tt

pub acquire-Disciplined :
    (owner : ℕ) (claim : Option Claim) → Disciplined (acquire owner claim) free
unfolding acquire
acquire-Disciplined owner claim =
    Disciplined-if free (not (is_some claim) || not (is_owner owner)) _ _ (λ _. tt)
      (λ given v w. acquire_from-Disciplined owner v (ground arith) w)

pub release-Disciplined : (claim : Option Claim) → Disciplined (release claim) free
unfolding release valid_claim is_owner
release-Disciplined none = tt
release-Disciplined (some claim) =
    Disciplined-if free (not (valid_claim (some claim))) _ _ (λ _. tt)
      λ valid.
        let (small, owned) = bounds (ground arith) in
        (λ w. inl (takes small owned, freed small owned), λ _ _. tt)
  where
    open claim use {owner, generation}

    bounds :
        valid_claim (some claim) ≡ true
        → (generation ≤ generation_max) × ((0 < owner) × (owner < 4))
    bounds valid = ground arith

    takes :
        generation ≤ generation_max
        → (0 < owner) × (owner < 4)
        → Takes (make_control generation owner) (make_control generation state_transition)
    takes small owned = ground (
      arith,
      make_control_fields generation owner,
      make_control_fields generation state_transition,
    )

    freed :
        generation ≤ generation_max
        → (0 < owner) × (owner < 4)
        → Disciplined
            (release_pins_to generation owner_none ret)
            (holding (control_generation (make_control generation owner)))
    freed small owned = rw (make_control_fields generation owner small (omega arith)).1 (
        release_pins_to-Disciplined generation owner_none ret small (omega arith) (omega arith) refl
          (λ _. tt))

pub operation_begin-Disciplined :
    (claim : Option Claim) (operation : Option Operation)
    → Disciplined (operation_begin claim operation) free
unfolding operation_begin valid_claim
operation_begin-Disciplined none operation = ground arith
operation_begin-Disciplined (some claim) operation = ground (
  arith,
  make_control_fields claim.generation claim.owner,
  Keeps-set_active (make_control claim.generation claim.owner),
)

pub control_begin-Disciplined :
    (owner : ℕ) (operation : Option Operation) → Disciplined (control_begin owner operation) free
unfolding control_begin control_begin_from is_owner
control_begin-Disciplined owner operation =
    Disciplined-if free (not (is_owner owner) || not (is_some operation)) _ _ (λ _. tt)
      λ given.
        Disciplined-if free (is_running operation) _ _ (λ _. tt)
          λ fresh v w. ground (arith, Keeps-set_active v w)

pub operation_end-Disciplined :
    (operation : Option Operation) → Disciplined (operation_end operation) free
unfolding operation_end
operation_end-Disciplined none = tt
operation_end-Disciplined (some operation) =
    Disciplined-if free (not operation.active) _ _ (λ _. tt)
      (λ _. (λ w. inr (Keeps-clear_active _ w (is_active-set_active _), tt), λ _ _. tt))

revoke_from-Disciplined : (control : ℕ) → IsWord control → Disciplined (revoke_from control) free
unfolding revoke_from is_owner
revoke_from-Disciplined control w = ground (
  arith,
  Takes-transition control w,
  release_pins_to-Disciplined (control_generation control) owner_none ret
      (control_generation-le control w) (omega arith) (omega arith) refl (λ _. tt),
)

pub revoke-Disciplined : Disciplined revoke free
unfolding revoke
revoke-Disciplined = revoke_from-Disciplined

revoke_owner_from-Disciplined :
    (owner control : ℕ)
    → is_owner owner ≡ true
    → IsWord control
    → Disciplined (revoke_owner_from owner control) free
unfolding revoke_owner_from is_owner
revoke_owner_from-Disciplined owner control owned w = ground (
  arith,
  Takes-transition control w,
  release_pins_to-Disciplined (control_generation control) owner_none ret
      (control_generation-le control w) (omega arith) (omega arith) refl (λ _. tt),
)

pub revoke_owner-Disciplined : (owner : ℕ) → Disciplined (revoke_owner owner) free
unfolding revoke_owner
revoke_owner-Disciplined owner =
    Disciplined-if free (not (is_owner owner)) _ _ (λ _. tt)
      (λ owned v w. revoke_owner_from-Disciplined owner v (ground arith) w)

suspend_loop-Disciplined :
    (fuel control : ℕ) → IsWord control → Disciplined (suspend_loop fuel control) free
unfolding suspend_loop is_owner
suspend_loop-Disciplined zero control w = tt
suspend_loop-Disciplined (suc fuel) control w = ground (
  arith,
  Takes-transition control w,
  Keeps-state control state_suspended w,
  release_pins_to-Disciplined (control_generation control) state_suspended ret
      (control_generation-le control w) (omega arith) (omega arith) refl (λ _. tt),
  suspend_loop-Disciplined fuel,
)

pub suspend-Disciplined : (fuel : ℕ) → Disciplined (suspend fuel) free
unfolding suspend
suspend-Disciplined fuel = suspend_loop-Disciplined fuel

resume_loop-Disciplined :
    (fuel control : ℕ) → IsWord control → Disciplined (resume_loop fuel control) free
unfolding resume_loop is_owner
resume_loop-Disciplined zero control w = tt
resume_loop-Disciplined (suc fuel) control w =
    ground (arith, Keeps-state control owner_none w, resume_loop-Disciplined fuel)

pub resume-Disciplined : (fuel : ℕ) → Disciplined (resume fuel) free
unfolding resume
resume-Disciplined fuel = resume_loop-Disciplined fuel
