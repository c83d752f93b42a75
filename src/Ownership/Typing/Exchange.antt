-- ===== src/Ownership/Typing/Exchange.antt =====
-- The exchanges of the arbiter keep to the discipline.
use air_dap.Ownership.Word.{
  owner_diagnostic, state_transition, generation_max, control_state, control_generation, is_active,
  is_owner, make_control, set_active, clear_active, IsWord, control_generation_lem,
  control_state_lem, make_control_fields, set_active_fields, clear_active_fields,
}
use air_dap.Ownership.Typing.{Takes, Keeps}
use air_dap.Prelude.{ℕ, ◌≤◌, ◌<◌, ◌≡◌, ◌≢◌, arith, true, false}

-- The generation of a word fits its field.
pub control_generation-le :
    (control : ℕ) → IsWord control → control_generation control ≤ generation_max
control_generation-le control w = omega (arith, control_generation_lem control)

pub control_state-lt : (control : ℕ) → control_state control < 8
control_state-lt control = omega (arith, control_state_lem control)

-- From a word that is settled and without an operation to the transition state.
pub Takes-transition :
    (control : ℕ)
    → IsWord control
    → control_state control ≢ state_transition
    → is_active control ≡ false
    → Takes control (make_control (control_generation control) state_transition)
Takes-transition control w settled quiet = ground (
  arith,
  control_generation-le control w,
  make_control_fields (control_generation control) state_transition,
)

-- From such a word to a state that is no owner.
pub Keeps-state :
    (control state : ℕ)
    → IsWord control
    → control_state control ≢ state_transition
    → is_active control ≡ false
    → state < 8
    → state ≢ state_transition
    → is_owner state ≡ false
    → Keeps control (make_control (control_generation control) state)
Keeps-state control state w settled quiet small other no_owner =
    ground (
      arith,
      control_generation-le control w,
      make_control_fields (control_generation control) state,
    )

-- Starting an operation under an owner or under none.
pub Keeps-set_active :
    (control : ℕ)
    → IsWord control
    → control_state control ≤ owner_diagnostic
    → is_active control ≡ false
    → Keeps control (set_active control)
Keeps-set_active control w owned quiet = ground (arith, set_active_fields control)

-- Ending an operation. A word with the active bit set is never in transition.
pub Keeps-clear_active :
    (control : ℕ) → IsWord control → is_active control ≡ true → Keeps control (clear_active control)
Keeps-clear_active control w running = ground (arith, clear_active_fields control)
