-- ===== src/Mode/Calls.antt =====
-- The functions of firmware/components/mode_state/mode_state.c and mode_storage.c, action by action. A
-- pointer is an `Option`; an output pointer is returned with what it points to.
pub mod Route
pub mod Admission
use air_dap.Ownership.Word.{
  owner_usb, owner_network, Result, ok, already_owner, busy, not_owner, offline, invalid_argument,
  invalid_state, Claim, Operation, zero_claim, owner_none, owner_diagnostic,
}
use air_dap.Ownership.Calls.{
  current, acquire, release, operation_begin, control_begin, operation_end, the_claim,
}
use air_dap.Ownership.Revocation.{revoke_owner}
use air_dap.Mode.Program.{
  NvsError, nvs_ok, nvs_not_found, nvs_fails, ModeProgram, returns, load_mode, store_mode, cas_mode,
  cas_mode_weak, load_inflight, store_inflight, add_inflight, sub_inflight, nvs_open_read,
  nvs_open_write, nvs_get, nvs_set, nvs_commit, nvs_close, spent, arbiter, after,
}
use air_dap.Mode.{
  ModeEvent, usb_attached, ModeResult, fine, illegal_argument, illegal_state, storage_error,
  initialized, usb_present, debug_shell_active, debug_shell_epoch_mask, usb_ota_epoch_mask,
  usb_ota_epoch_shift, wifi_mask, wifi_epoch_mask, ota_mask, ota_idle, wifi_online, dap_route_mask,
  dap_route_shift, route_auto, route_usb, route_network, route_toggle, route_network_auto_toggle,
  next_control, test_bit, clear_bit, get_wifi, get_provisioning, get_ota, get_route, replace_field,
  next_usb_ota_epoch,
}
use air_dap.Prelude.{
  ℕ, zero, suc, ◌+◌, bit_and, bit_or, bit_xor, Bool, true, false, not, ◌&&◌, ◌||◌, ltb, Option,
  none, some, ◌==◌, if◌then◌else◌, is_some,
}

-- `airdap_mode_dap_result_t`
pub data DapResult : Type 0 where
  allowed dap_busy dap_offline unauthenticated bad_argument bad_state storage_failed : DapResult

abbrev pub is_allowed : DapResult → Bool
is_allowed allowed = true
is_allowed _ = false

abbrev pub is_busy : DapResult → Bool
is_busy dap_busy = true
is_busy _ = false

abbrev pub is_attach : ModeEvent → Bool
is_attach usb_attached = true
is_attach _ = false

abbrev pub is_fine : ModeResult → Bool
is_fine fine = true
is_fine _ = false

unfoldable pub mode_init : ModeProgram Bool
mode_init = store_inflight 0 (store_mode initialized (returns true))

-- `if (attaching) atomic_fetch_sub(...)` before a `return`
unfoldable pub leave : {A : Type 0} → Bool → A → ModeProgram A
leave counted result = if counted then sub_inflight (returns result) else returns result

-- The `for (;;)` of `airdap_mode_state_transition`; the first argument is the fuel.
unfoldable pub transition_loop : ℕ → ModeEvent → ℕ → ModeProgram ModeResult
transition_loop zero event control = spent
transition_loop (suc fuel) event control =
    let attaching = is_attach event in
    let moved = next_control control event in
    if not (test_bit control initialized)
    then leave attaching illegal_state
    else if not (is_fine moved.0)
    then leave attaching moved.0
    else cas_mode_weak control moved.1
        (if attaching && not (get_route moved.1 == route_network)
          then arbiter (revoke_owner owner_network) (λ _. leave attaching fine)
          else leave attaching fine)
        (λ observed. transition_loop fuel event observed)

unfoldable pub transition : ℕ → ModeEvent → ModeProgram ModeResult
transition fuel event =
    if is_attach event
    then add_inflight (load_mode (transition_loop fuel event))
    else load_mode (transition_loop fuel event)

-- `airdap_mode_snapshot_t`
pub record Snapshot : Type 0 where
  pub usb_present : Bool
  pub wifi : ℕ
  pub provisioning : ℕ
  pub ota : ℕ
  pub dap_owner : ℕ

unfoldable pub state_get : Option Snapshot → ModeProgram (ModeResult × Option Snapshot)
state_get none = returns (illegal_argument, none)
state_get (some old) = load_mode λ control.
    if not (test_bit control initialized)
    then returns (illegal_state, some old)
    else arbiter current λ owner. returns (
      fine,
      some (record {
        usb_present = test_bit control usb_present;
        wifi = get_wifi control;
        provisioning = get_provisioning control;
        ota = get_ota control;
        dap_owner = owner;
      }),
    )

-- The part of `dap_admission_for_control` before it asks the arbiter: the early returns, and `allowed`
-- where it goes on. The `default` of the `switch` cannot be reached.
unfoldable pub dap_policy : ℕ → ℕ → Bool → Bool → DapResult
dap_policy control owner authenticated board_control =
    if not (owner == owner_usb) && not (owner == owner_network) && not (owner == owner_diagnostic)
    then bad_argument
    else if not (test_bit control initialized)
    then bad_state
    else if owner == owner_network && not authenticated
    then unauthenticated
    else if not (get_ota control == ota_idle)
    then dap_busy
    else if owner == owner_usb
    then (if get_route control == route_network
        then dap_busy
        else if not (test_bit control usb_present)
        then dap_offline
        else allowed)
    else if owner == owner_network
    then (if if board_control
          then test_bit control debug_shell_active
          else get_route control == route_usb
            || get_route control == route_auto && test_bit control usb_present
        then dap_busy
        else if not (get_wifi control == wifi_online)
        then dap_offline
        else allowed)
    else if not (test_bit control usb_present)
    then dap_offline
    else allowed

unfoldable pub dap_admission_for_control : ℕ → ℕ → Bool → Bool → ModeProgram DapResult
dap_admission_for_control control owner authenticated board_control =
    let policy = dap_policy control owner authenticated board_control in
    if not (is_allowed policy)
    then returns policy
    else arbiter current λ holder.
      returns (if not (holder == owner_none) && not (holder == owner) then dap_busy else allowed)

unfoldable pub dap_admission : ℕ → Bool → ModeProgram DapResult
dap_admission owner authenticated =
    load_mode λ control. dap_admission_for_control control owner authenticated false

unfoldable pub ownership_result : Result → DapResult
ownership_result ok = allowed
ownership_result already_owner = allowed
ownership_result busy = dap_busy
ownership_result offline = dap_offline
ownership_result invalid_argument = bad_argument
ownership_result not_owner = bad_state
ownership_result invalid_state = bad_state

unfoldable pub get_dap_route : ModeProgram ℕ
get_dap_route = load_mode λ control. returns (get_route control)

unfoldable pub usb_data_enabled : ModeProgram Bool
usb_data_enabled =
    load_mode
      λ control. returns (test_bit control initialized && not (get_route control == route_network))

unfoldable pub network_data_enabled : ModeProgram Bool
network_data_enabled = load_mode λ control.
    let route = get_route control in
    returns (
      test_bit control initialized
      && (route == route_network || route == route_auto && not (test_bit control usb_present)))
