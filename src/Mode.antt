-- ===== src/Mode.antt =====
-- The mode word of firmware/components/mode_state/mode_state.c, and the transitions on it.
pub mod Word
pub mod Program
pub mod Calls
pub mod Monitor
pub mod Policy
pub mod Stamp
pub mod Examples
use air_dap.Prelude.{
  ℕ, ◌+◌, ◌-◌, ◌*◌, ◌/◌, ◌%◌, ◌^◌, bit_and, bit_or, bit_xor, Bool, true, false, not, ◌==◌,
  if◌then◌else◌,
}

abbrev pub usb_present : ℕ
usb_present = 1

abbrev pub wifi_shift : ℕ
wifi_shift = 1

abbrev pub wifi_mask : ℕ
wifi_mask = 0x3 * 2 ^ wifi_shift

abbrev pub provisioning_shift : ℕ
provisioning_shift = 3

abbrev pub provisioning_mask : ℕ
provisioning_mask = 0x3 * 2 ^ provisioning_shift

abbrev pub ota_shift : ℕ
ota_shift = 5

abbrev pub ota_mask : ℕ
ota_mask = 0x3 * 2 ^ ota_shift

abbrev pub initialized : ℕ
initialized = 2 ^ 7

abbrev pub usb_ota_epoch_shift : ℕ
usb_ota_epoch_shift = 8

abbrev pub usb_ota_epoch_mask : ℕ
usb_ota_epoch_mask = 0xff * 2 ^ usb_ota_epoch_shift

abbrev pub wifi_epoch_shift : ℕ
wifi_epoch_shift = 16

abbrev pub wifi_epoch_mask : ℕ
wifi_epoch_mask = 0xff * 2 ^ wifi_epoch_shift

abbrev pub debug_shell_active : ℕ
debug_shell_active = 2 ^ 24

abbrev pub debug_shell_epoch_shift : ℕ
debug_shell_epoch_shift = 25

abbrev pub debug_shell_epoch_mask : ℕ
debug_shell_epoch_mask = 0x1f * 2 ^ debug_shell_epoch_shift

abbrev pub dap_route_shift : ℕ
dap_route_shift = 30

abbrev pub dap_route_mask : ℕ
dap_route_mask = 0x3 * 2 ^ dap_route_shift

-- `airdap_wifi_state_t`
abbrev pub wifi_stopped : ℕ
wifi_stopped = 0

abbrev pub wifi_disconnected : ℕ
wifi_disconnected = 1

abbrev pub wifi_connecting : ℕ
wifi_connecting = 2

abbrev pub wifi_online : ℕ
wifi_online = 3

-- `airdap_provisioning_state_t`
abbrev pub provisioning_idle : ℕ
provisioning_idle = 0

abbrev pub provisioning_active : ℕ
provisioning_active = 1

abbrev pub provisioning_succeeded : ℕ
provisioning_succeeded = 2

abbrev pub provisioning_timed_out : ℕ
provisioning_timed_out = 3

-- `airdap_mode_ota_state_t`
abbrev pub ota_idle : ℕ
ota_idle = 0

abbrev pub ota_receiving : ℕ
ota_receiving = 1

abbrev pub ota_ready_to_reboot : ℕ
ota_ready_to_reboot = 2

-- `airdap_dap_route_t`
abbrev pub route_auto : ℕ
route_auto = 0

abbrev pub route_usb : ℕ
route_usb = 1

abbrev pub route_network : ℕ
route_network = 2

abbrev pub route_toggle : ℕ
route_toggle = 3

abbrev pub route_network_auto_toggle : ℕ
route_network_auto_toggle = 4

-- `unknown_event` is any value that the `switch` does not list.
pub data ModeEvent : Type 0 where
  usb_attached usb_detached : ModeEvent
  wifi_stops wifi_disconnects wifi_connects wifi_goes_online : ModeEvent
  provisioning_starts provisioning_succeeds provisioning_times_out provisioning_resets : ModeEvent
  ota_starts ota_aborts ota_fails ota_commits ota_resets : ModeEvent
  debug_shell_starts debug_shell_ends unknown_event : ModeEvent

-- `airdap_mode_state_result_t`
pub data ModeResult : Type 0 where
  fine illegal_argument illegal_state illegal_transition storage_error : ModeResult

unfoldable pub replace_field : ℕ → ℕ → ℕ → ℕ → ℕ
replace_field control mask shift value =
    bit_or (bit_and control (2 ^ 32 - 1 - mask)) (value * 2 ^ shift % 2 ^ 32)

unfoldable pub field_value : ℕ → ℕ → ℕ → ℕ
field_value control mask shift = bit_and control mask / 2 ^ shift

unfoldable pub increment_field : ℕ → ℕ → ℕ → ℕ
increment_field control mask shift =
    replace_field control mask shift
      (bit_and ((field_value control mask shift + 1) % 2 ^ 32) (mask / 2 ^ shift))

-- `control | bit` and `control & ~bit`
unfoldable pub set_bit : ℕ → ℕ → ℕ
set_bit control bit = bit_or control bit

unfoldable pub clear_bit : ℕ → ℕ → ℕ
clear_bit control bit = bit_and control (2 ^ 32 - 1 - bit)

-- `(control & bit) != 0U`
unfoldable pub test_bit : ℕ → ℕ → Bool
test_bit control bit = not (bit_and control bit == 0)

unfoldable pub set_wifi : ℕ → ℕ → ℕ
set_wifi control value = replace_field control wifi_mask wifi_shift value

unfoldable pub set_provisioning : ℕ → ℕ → ℕ
set_provisioning control value = replace_field control provisioning_mask provisioning_shift value

unfoldable pub set_ota : ℕ → ℕ → ℕ
set_ota control value = replace_field control ota_mask ota_shift value

unfoldable pub get_wifi : ℕ → ℕ
get_wifi control = field_value control wifi_mask wifi_shift

unfoldable pub get_provisioning : ℕ → ℕ
get_provisioning control = field_value control provisioning_mask provisioning_shift

unfoldable pub get_ota : ℕ → ℕ
get_ota control = field_value control ota_mask ota_shift

unfoldable pub get_route : ℕ → ℕ
get_route control = field_value control dap_route_mask dap_route_shift

-- The three epochs, each moved on by one.
unfoldable pub next_usb_ota_epoch : ℕ → ℕ
next_usb_ota_epoch control = increment_field control usb_ota_epoch_mask usb_ota_epoch_shift

unfoldable pub next_wifi_epoch : ℕ → ℕ
next_wifi_epoch control = increment_field control wifi_epoch_mask wifi_epoch_shift

unfoldable pub next_debug_shell_epoch : ℕ → ℕ
next_debug_shell_epoch control =
    increment_field control debug_shell_epoch_mask debug_shell_epoch_shift

-- The shell's epoch moves on only where its bit has changed.
unfoldable pub shell_changed : ℕ → ℕ → ℕ
shell_changed current next =
    if test_bit (bit_xor current next) debug_shell_active then next_debug_shell_epoch next else next

-- The result and `*next`.
unfoldable pub next_control : ℕ → ModeEvent → ModeResult × ℕ
next_control current usb_attached = (fine, next_usb_ota_epoch (set_bit current usb_present))
next_control current usb_detached = (fine, next_usb_ota_epoch (clear_bit current usb_present))
next_control current debug_shell_starts =
    (fine, shell_changed current (set_bit current debug_shell_active))
next_control current debug_shell_ends =
    (fine, shell_changed current (clear_bit current debug_shell_active))
next_control current wifi_stops = (fine, next_wifi_epoch (set_wifi current wifi_stopped))
next_control current wifi_disconnects =
    if get_wifi current == wifi_stopped
    then (illegal_transition, current)
    else (fine, next_wifi_epoch (set_wifi current wifi_disconnected))
next_control current wifi_connects = (fine, next_wifi_epoch (set_wifi current wifi_connecting))
next_control current wifi_goes_online =
    if not (get_wifi current == wifi_connecting)
    then (illegal_transition, current)
    else (fine, next_wifi_epoch (set_wifi current wifi_online))
next_control current provisioning_starts =
    if get_provisioning current == provisioning_active
    then (illegal_transition, current)
    else (fine, shell_changed current (set_provisioning current provisioning_active))
next_control current provisioning_succeeds =
    if not (get_provisioning current == provisioning_active)
    then (illegal_transition, current)
    else (fine, shell_changed current (set_provisioning current provisioning_succeeded))
next_control current provisioning_times_out =
    if not (get_provisioning current == provisioning_active)
    then (illegal_transition, current)
    else (fine, shell_changed current (set_provisioning current provisioning_timed_out))
next_control current provisioning_resets =
    (fine, shell_changed current (set_provisioning current provisioning_idle))
next_control current ota_starts =
    if not (get_ota current == ota_idle)
    then (illegal_transition, current)
    else (fine, next_usb_ota_epoch (set_ota current ota_receiving))
next_control current ota_aborts =
    if not (get_ota current == ota_receiving)
    then (illegal_transition, current)
    else (fine, next_usb_ota_epoch (set_ota current ota_idle))
next_control current ota_fails =
    if not (get_ota current == ota_receiving)
    then (illegal_transition, current)
    else (fine, next_usb_ota_epoch (set_ota current ota_idle))
next_control current ota_commits =
    if not (get_ota current == ota_receiving)
    then (illegal_transition, current)
    else (fine, next_usb_ota_epoch (set_ota current ota_ready_to_reboot))
next_control current ota_resets = (fine, next_usb_ota_epoch (set_ota current ota_idle))
next_control current unknown_event = (illegal_argument, current)
