-- ===== src/Mode/Word/Machine.antt =====
-- The state machine behind `next_control` of firmware/components/mode_state/mode_state.c, on the fields
-- of the mode word.
use air_dap.Mode.Word.Layout.{Fits, Modes}
use air_dap.Mode.{
  ModeEvent, usb_attached, usb_detached, wifi_stops, wifi_disconnects, wifi_connects,
  wifi_goes_online, provisioning_starts, provisioning_succeeds, provisioning_times_out,
  provisioning_resets, ota_starts, ota_aborts, ota_fails, ota_commits, ota_resets,
  debug_shell_starts, debug_shell_ends, unknown_event, ModeResult, fine, illegal_argument,
  illegal_transition, wifi_stopped, wifi_disconnected, wifi_connecting, wifi_online,
  provisioning_idle, provisioning_active, provisioning_succeeded, provisioning_timed_out, ota_idle,
  ota_receiving, ota_ready_to_reboot,
}
use air_dap.Prelude.{ℕ, ◌+◌, ◌%◌, ◌==◌, Bool, true, false, if◌then◌else◌, ◌<◌, arith}

-- What an event does to the fields: a change, or a refusal that changes nothing.
abbrev pub usb_ota_moves : Modes → Modes
usb_ota_moves v = record v { usb_ota_epoch = (v.usb_ota_epoch + 1) % 256 }

abbrev pub wifi_moves : Modes → ℕ → Modes
wifi_moves v wifi = record v { wifi = wifi; wifi_epoch = (v.wifi_epoch + 1) % 256 }

abbrev pub shell_moves : Modes → Bool → Modes
shell_moves v shell = record v { shell = shell; shell_epoch = (v.shell_epoch + 1) % 32 }

-- The state machine that the events drive.
unfoldable pub mode_step : Modes → ModeEvent → ModeResult × Modes
mode_step v usb_attached = (fine, usb_ota_moves (record v { usb = true }))
mode_step v usb_detached = (fine, usb_ota_moves (record v { usb = false }))
mode_step v wifi_stops = (fine, wifi_moves v wifi_stopped)
mode_step v wifi_disconnects =
    if v.wifi == wifi_stopped
    then (illegal_transition, v)
    else (fine, wifi_moves v wifi_disconnected)
mode_step v wifi_connects = (fine, wifi_moves v wifi_connecting)
mode_step v wifi_goes_online =
    if v.wifi == wifi_connecting then (fine, wifi_moves v wifi_online) else (illegal_transition, v)
mode_step v provisioning_starts =
    if v.provisioning == provisioning_active
    then (illegal_transition, v)
    else (fine, record v { provisioning = provisioning_active })
mode_step v provisioning_succeeds =
    if v.provisioning == provisioning_active
    then (fine, record v { provisioning = provisioning_succeeded })
    else (illegal_transition, v)
mode_step v provisioning_times_out =
    if v.provisioning == provisioning_active
    then (fine, record v { provisioning = provisioning_timed_out })
    else (illegal_transition, v)
mode_step v provisioning_resets = (fine, record v { provisioning = provisioning_idle })
mode_step v ota_starts =
    if v.ota == ota_idle
    then (fine, usb_ota_moves (record v { ota = ota_receiving }))
    else (illegal_transition, v)
mode_step v ota_aborts =
    if v.ota == ota_receiving
    then (fine, usb_ota_moves (record v { ota = ota_idle }))
    else (illegal_transition, v)
mode_step v ota_fails =
    if v.ota == ota_receiving
    then (fine, usb_ota_moves (record v { ota = ota_idle }))
    else (illegal_transition, v)
mode_step v ota_commits =
    if v.ota == ota_receiving
    then (fine, usb_ota_moves (record v { ota = ota_ready_to_reboot }))
    else (illegal_transition, v)
mode_step v ota_resets = (fine, usb_ota_moves (record v { ota = ota_idle }))
mode_step v debug_shell_starts = (fine, if v.shell then v else shell_moves v true)
mode_step v debug_shell_ends = (fine, if v.shell then shell_moves v false else v)
mode_step v unknown_event = (illegal_argument, v)

-- A field set to a value that fits.
module _ (v : Modes) (ok : Fits v) where
  open ok use {
    wifi-lt, provisioning-lt, ota-lt, usb_ota_epoch-lt, wifi_epoch-lt, shell_epoch-lt, route-lt,
  }

  pub with_wifi-Fits : (x : ℕ) → x < 4 → Fits (record v { wifi = x })
  with_wifi-Fits x h = record {
    wifi-lt = h;
    provisioning-lt = provisioning-lt;
    ota-lt = ota-lt;
    usb_ota_epoch-lt = usb_ota_epoch-lt;
    wifi_epoch-lt = wifi_epoch-lt;
    shell_epoch-lt = shell_epoch-lt;
    route-lt = route-lt;
  }

  pub with_provisioning-Fits : (x : ℕ) → x < 4 → Fits (record v { provisioning = x })
  with_provisioning-Fits x h = record {
    wifi-lt = wifi-lt;
    provisioning-lt = h;
    ota-lt = ota-lt;
    usb_ota_epoch-lt = usb_ota_epoch-lt;
    wifi_epoch-lt = wifi_epoch-lt;
    shell_epoch-lt = shell_epoch-lt;
    route-lt = route-lt;
  }

  pub with_ota-Fits : (x : ℕ) → x < 4 → Fits (record v { ota = x })
  with_ota-Fits x h = record {
    wifi-lt = wifi-lt;
    provisioning-lt = provisioning-lt;
    ota-lt = h;
    usb_ota_epoch-lt = usb_ota_epoch-lt;
    wifi_epoch-lt = wifi_epoch-lt;
    shell_epoch-lt = shell_epoch-lt;
    route-lt = route-lt;
  }

  pub with_usb_ota_epoch-Fits : (x : ℕ) → x < 256 → Fits (record v { usb_ota_epoch = x })
  with_usb_ota_epoch-Fits x h = record {
    wifi-lt = wifi-lt;
    provisioning-lt = provisioning-lt;
    ota-lt = ota-lt;
    usb_ota_epoch-lt = h;
    wifi_epoch-lt = wifi_epoch-lt;
    shell_epoch-lt = shell_epoch-lt;
    route-lt = route-lt;
  }

  pub with_wifi_epoch-Fits : (x : ℕ) → x < 256 → Fits (record v { wifi_epoch = x })
  with_wifi_epoch-Fits x h = record {
    wifi-lt = wifi-lt;
    provisioning-lt = provisioning-lt;
    ota-lt = ota-lt;
    usb_ota_epoch-lt = usb_ota_epoch-lt;
    wifi_epoch-lt = h;
    shell_epoch-lt = shell_epoch-lt;
    route-lt = route-lt;
  }

  pub with_shell_epoch-Fits : (x : ℕ) → x < 32 → Fits (record v { shell_epoch = x })
  with_shell_epoch-Fits x h = record {
    wifi-lt = wifi-lt;
    provisioning-lt = provisioning-lt;
    ota-lt = ota-lt;
    usb_ota_epoch-lt = usb_ota_epoch-lt;
    wifi_epoch-lt = wifi_epoch-lt;
    shell_epoch-lt = h;
    route-lt = route-lt;
  }

  pub with_route-Fits : (x : ℕ) → x < 4 → Fits (record v { route = x })
  with_route-Fits x h = record {
    wifi-lt = wifi-lt;
    provisioning-lt = provisioning-lt;
    ota-lt = ota-lt;
    usb_ota_epoch-lt = usb_ota_epoch-lt;
    wifi_epoch-lt = wifi_epoch-lt;
    shell_epoch-lt = shell_epoch-lt;
    route-lt = h;
  }

-- Both branches of a guard fit.
either_Fits :
    (b : Bool) (x y : ModeResult × Modes) → Fits x.1 → Fits y.1 → Fits (if b then x else y).1
either_Fits true x y h k = h
either_Fits false x y h k = k

module _ (v : Modes) (ok : Fits v) where
  usb_ota_moves-Fits : (w : Modes) → Fits w → Fits (usb_ota_moves w)
  usb_ota_moves-Fits w right = with_usb_ota_epoch-Fits w right _ (omega arith)

  wifi_moves-Fits : (x : ℕ) → x < 4 → Fits (wifi_moves v x)
  wifi_moves-Fits x h =
      with_wifi_epoch-Fits (record v { wifi = x }) (with_wifi-Fits v ok x h) _ (omega arith)

  ota_moves-Fits : (x : ℕ) → x < 4 → Fits (usb_ota_moves (record v { ota = x }))
  ota_moves-Fits x h = usb_ota_moves-Fits (record v { ota = x }) (with_ota-Fits v ok x h)

  shell_moves-Fits : (b : Bool) → Fits (shell_moves v b)
  shell_moves-Fits b = with_shell_epoch-Fits (record v { shell = b }) ok _ (omega arith)

  pub mode_step-Fits : (e : ModeEvent) → Fits (mode_step v e).1
  unfolding mode_step
  mode_step-Fits usb_attached = usb_ota_moves-Fits (record v { usb = true }) ok
  mode_step-Fits usb_detached = usb_ota_moves-Fits (record v { usb = false }) ok
  mode_step-Fits wifi_stops = wifi_moves-Fits 0 (omega arith)
  mode_step-Fits wifi_disconnects =
      either_Fits (v.wifi == 0) _ (fine, wifi_moves v 1) ok (wifi_moves-Fits 1 (omega arith))
  mode_step-Fits wifi_connects = wifi_moves-Fits 2 (omega arith)
  mode_step-Fits wifi_goes_online =
      either_Fits (v.wifi == 2) (fine, wifi_moves v 3) _ (wifi_moves-Fits 3 (omega arith)) ok
  mode_step-Fits provisioning_starts =
      either_Fits (v.provisioning == 1) _ _ ok (with_provisioning-Fits v ok 1 (omega arith))
  mode_step-Fits provisioning_succeeds =
      either_Fits (v.provisioning == 1) _ _ (with_provisioning-Fits v ok 2 (omega arith)) ok
  mode_step-Fits provisioning_times_out =
      either_Fits (v.provisioning == 1) _ _ (with_provisioning-Fits v ok 3 (omega arith)) ok
  mode_step-Fits provisioning_resets = with_provisioning-Fits v ok 0 (omega arith)
  mode_step-Fits ota_starts = either_Fits (v.ota == 0) _ _ (ota_moves-Fits 1 (omega arith)) ok
  mode_step-Fits ota_aborts = either_Fits (v.ota == 1) _ _ (ota_moves-Fits 0 (omega arith)) ok
  mode_step-Fits ota_fails = either_Fits (v.ota == 1) _ _ (ota_moves-Fits 0 (omega arith)) ok
  mode_step-Fits ota_commits = either_Fits (v.ota == 1) _ _ (ota_moves-Fits 2 (omega arith)) ok
  mode_step-Fits ota_resets = ota_moves-Fits 0 (omega arith)
  mode_step-Fits debug_shell_starts =
      elim v.shell as (λ b. Fits (if b then v else shell_moves v true)) [
        | true ↦ ok
        | false ↦ shell_moves-Fits true
      ]
  mode_step-Fits debug_shell_ends =
      elim v.shell as (λ b. Fits (if b then shell_moves v false else v)) [
        | true ↦ shell_moves-Fits false
        | false ↦ ok
      ]
  mode_step-Fits unknown_event = ok
