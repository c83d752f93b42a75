-- ===== src/Mode/Calls/Route.antt =====
-- The route of firmware/components/mode_state/mode_state.c: its storage (mode_storage.c), its
-- restoration at boot and its selection.
use air_dap.Ownership.Word.{Operation, owner_none, owner_diagnostic}
use air_dap.Ownership.Calls.{control_begin, operation_end}
use air_dap.Mode.Program.{
  NvsError, nvs_ok, nvs_not_found, nvs_fails, ModeProgram, returns, load_mode, cas_mode,
  cas_mode_weak, load_inflight, nvs_open_read, nvs_open_write, nvs_get, nvs_set, nvs_commit,
  nvs_close, spent, arbiter, after,
}
use air_dap.Mode.{
  ModeResult, fine, illegal_state, storage_error, initialized, usb_present, usb_ota_epoch_mask,
  ota_mask, dap_route_mask, dap_route_shift, route_auto, route_usb, route_network, route_toggle,
  route_network_auto_toggle, test_bit, clear_bit, get_route, replace_field, next_usb_ota_epoch,
}
use air_dap.Prelude.{
  ℕ, zero, suc, Bool, true, false, not, ◌&&◌, ◌||◌, ltb, Option, none, some, ◌==◌, if◌then◌else◌,
}
use air_dap.Mode.Calls.{
  DapResult, allowed, dap_busy, bad_argument, bad_state, storage_failed, is_allowed,
  ownership_result,
}

abbrev pub is_nvs_ok : NvsError → Bool
is_nvs_ok nvs_ok = true
is_nvs_ok _ = false

-- The end of `airdap_mode_storage_load`, on the last error and the value read.
unfoldable pub storage_loaded : NvsError → ℕ → Option ℕ
storage_loaded nvs_ok value = if ltb route_network value then none else some value
storage_loaded nvs_not_found value = some route_auto
storage_loaded nvs_fails value = none

-- `none` for `false`, else `*route`.
unfoldable pub storage_load : ModeProgram (Option ℕ)
storage_load = nvs_open_read λ opened.
    if is_nvs_ok opened
    then nvs_get (λ error value. nvs_close (returns (storage_loaded error value)))
    else returns (storage_loaded opened route_auto)

-- What follows `nvs_open` and `nvs_set_u8` of `airdap_mode_storage_save`.
unfoldable pub storage_commit : NvsError → ModeProgram Bool
storage_commit written =
    if is_nvs_ok written
    then nvs_commit (λ committed. nvs_close (returns (is_nvs_ok committed)))
    else nvs_close (returns false)

unfoldable pub storage_write : ℕ → NvsError → ModeProgram Bool
storage_write route opened =
    if is_nvs_ok opened then nvs_set route storage_commit else returns false

unfoldable pub storage_save : ℕ → ModeProgram Bool
storage_save route =
    if ltb route_network route then returns false else nvs_open_write (storage_write route)

unfoldable pub restore_dap_route : ModeProgram ModeResult
restore_dap_route = load_mode λ expected.
    if not (clear_bit expected usb_ota_epoch_mask == initialized)
    then returns illegal_state
    else after storage_load λ loaded. elim loaded [
      | none ↦ returns storage_error
      | some route ↦
          cas_mode expected (replace_field expected dap_route_mask dap_route_shift route)
            (returns fine) (λ observed. returns illegal_state)
    ]

-- The route that a command selects.
unfoldable pub selected_route : ℕ → ℕ → ℕ
selected_route route control =
    let previous = get_route control in
    if route == route_toggle
    then (if previous == route_usb || previous == route_auto && test_bit control usb_present
        then route_network
        else route_usb)
    else if route == route_network_auto_toggle
    then (if previous == route_network then route_auto else route_network)
    else route

-- The inner `for (;;)` of `airdap_mode_state_set_dap_route`; the first argument is the fuel.
unfoldable pub install_route : ℕ → ℕ → ℕ → ModeProgram DapResult
install_route zero selected control = spent
install_route (suc fuel) selected control =
    cas_mode_weak control
      (next_usb_ota_epoch (replace_field control dap_route_mask dap_route_shift selected))
      (returns allowed) (λ observed. install_route fuel selected observed)

-- The body of its `do ... while (false)`, after the guards, and with them.
unfoldable pub change_route : ℕ → ℕ → ℕ → ModeProgram DapResult
change_route fuel selected control =
    if selected == get_route control
    then returns allowed
    else after (storage_save selected)
        (λ saved. if saved then install_route fuel selected control else returns storage_failed)

unfoldable pub select_route : ℕ → ℕ → ℕ → ModeProgram DapResult
select_route fuel route control =
    if not (test_bit control initialized)
    then returns bad_state
    else if test_bit control ota_mask
    then returns dap_busy
    else load_inflight λ inflight.
      if not (inflight == 0)
      then returns dap_busy
      else change_route fuel (selected_route route control) control

abbrev pub no_operation : Option Operation
no_operation = some (record { owner = 0; generation = 0; active = false })

abbrev pub operation_owner : Option Operation → ℕ
operation_owner none = 0
operation_owner (some operation) = operation.owner

unfoldable pub set_dap_route : ℕ → ℕ → ModeProgram DapResult
set_dap_route fuel route =
    if ltb route_network_auto_toggle route
    then returns bad_argument
    else arbiter (control_begin owner_diagnostic no_operation) λ begun.
      if not (is_allowed (ownership_result begun.0))
      then returns (ownership_result begun.0)
      else if not (operation_owner begun.1 == owner_none)
      then arbiter (operation_end begun.1) (λ _. returns dap_busy)
      else load_mode λ control.
        after (select_route fuel route control)
          λ result. arbiter (operation_end begun.1) λ _. returns result
