-- ===== src/Ownership/Revocation.antt =====
-- Taking the port back: `airdap_dap_ownership_revoke`, `revoke_owner`, `suspend` and `resume` of
-- firmware/components/dap_ownership/dap_ownership.c, action by action.
use air_dap.Ownership.Word.{
  owner_none, state_transition, state_offline, state_suspended, state_uninitialized, Result, ok,
  busy, not_owner, offline, invalid_argument, invalid_state, is_owner, control_state,
  control_generation, is_active, make_control,
}
use air_dap.Ownership.Program.{Program, ret, load, cas, cas_weak, out_of_fuel}
use air_dap.Prelude.{ℕ, zero, suc, not, ◌&&◌, ◌||◌, ◌==◌, if◌then◌else◌}
use air_dap.Ownership.Calls.{release_pins_to}

unfoldable pub revoke_from : ℕ → Program Result
revoke_from control =
    let state = control_state control in
    let generation = control_generation control in
    if state == owner_none && not (is_active control)
    then ret ok
    else if state == state_offline
    then ret offline
    else if state == state_uninitialized
    then ret invalid_state
    else if not (is_owner state) || is_active control
    then ret busy
    else cas control (make_control generation state_transition)
        (release_pins_to generation owner_none ret)
        λ observed.
          if control_state observed == owner_none
          then ret ok
          else if control_state observed == state_offline
          then ret offline
          else if control_state observed == state_uninitialized
          then ret invalid_state
          else ret busy

unfoldable pub revoke : Program Result
revoke = load revoke_from

unfoldable pub revoke_owner_from : ℕ → ℕ → Program Result
revoke_owner_from owner control =
    let state = control_state control in
    let generation = control_generation control in
    if state == state_offline
    then ret offline
    else if state == state_uninitialized
    then ret invalid_state
    else if state == state_transition || state == state_suspended
    then ret busy
    else if not (state == owner)
    then ret not_owner
    else if is_active control
    then ret busy
    else cas control (make_control generation state_transition)
        (release_pins_to generation owner_none ret)
        λ observed.
          if control_state observed == state_offline
          then ret offline
          else if control_state observed == state_uninitialized
          then ret invalid_state
          else if control_state observed == owner
              || control_state observed == state_transition
              || control_state observed == state_suspended
          then ret busy
          else ret not_owner

unfoldable pub revoke_owner : ℕ → Program Result
revoke_owner owner =
    if not (is_owner owner) then ret invalid_argument else load (revoke_owner_from owner)

-- The `for (;;)` of `airdap_dap_ownership_suspend`; the first argument is the fuel.
unfoldable pub suspend_loop : ℕ → ℕ → Program Result
suspend_loop zero control = out_of_fuel
suspend_loop (suc fuel) control =
    let state = control_state control in
    let generation = control_generation control in
    if state == state_suspended
    then ret ok
    else if state == state_offline
    then ret offline
    else if state == state_uninitialized
    then ret invalid_state
    else if state == state_transition || is_active control
    then ret busy
    else if state == owner_none
    then cas_weak control (make_control generation state_suspended) (ret ok)
        (λ observed. suspend_loop fuel observed)
    else if not (is_owner state)
    then ret busy
    else cas_weak control (make_control generation state_transition)
        (release_pins_to generation state_suspended ret) (λ observed. suspend_loop fuel observed)

unfoldable pub suspend : ℕ → Program Result
suspend fuel = load (suspend_loop fuel)

unfoldable pub resume_loop : ℕ → ℕ → Program Result
resume_loop zero control = out_of_fuel
resume_loop (suc fuel) control =
    let state = control_state control in
    if state == owner_none
    then ret ok
    else if state == state_offline
    then ret offline
    else if state == state_uninitialized
    then ret invalid_state
    else if not (state == state_suspended)
    then ret busy
    else cas_weak control (make_control (control_generation control) owner_none) (ret ok)
        (λ observed. resume_loop fuel observed)

unfoldable pub resume : ℕ → Program Result
resume fuel = load (resume_loop fuel)
