-- ===== src/Mode/Examples.antt =====
-- The theorems on firmware/components/mode_state at concrete words and calls.
use air_dap.Ownership.Word.{owner_usb, owner_network, Claim, Operation}
use air_dap.Mode.{
  usb_attached, wifi_connects, next_control, initialized, replace_field, get_route, field_value,
  test_bit, get_ota, usb_present, increment_field, next_wifi_epoch, set_wifi,
}
use air_dap.Mode.Calls.{is_allowed, dap_policy, transition}
use air_dap.Mode.Calls.Route.{set_dap_route}
use air_dap.Mode.Calls.Admission.{
  dap_operation_begin, control_operation_begin, state_dap_acquire, dap_policy_stamp,
}
use air_dap.Mode.Word.Layout.{unpack}
use air_dap.Mode.Word.Machine.{mode_step}
use air_dap.Mode.Word.Refines.{next_control-mode_step}
use air_dap.Mode.Policy.{Admits, dap_policy-Admits, dap_policy_exclusive}
use air_dap.Mode.Monitor.Preemption.{Counted, usb_preemption-Counted}
use air_dap.Mode.Monitor.Results.{
  Results, RunsIfAllowed, operation_begin_reserves, Denied, unauthenticated-Denied,
}
use air_dap.Mode.Monitor.Storage.{SavedFirst, set_dap_route-SavedFirst}
use air_dap.Mode.Stamp.{Move, by_event, run, changes}
use air_dap.Mode.Stamp.Detects.{stamp_detects}
use air_dap.Prelude.{
  ℕ, ◌+◌, ◌^◌, ◌<◌, ◌≡◌, ◌↔◌, refl, arith, true, false, Option, some, List, [], ◌∷◌,
}

-- Initialised, USB attached, route automatic.
abbrev attached : ℕ
attached = initialized + usb_present

next_control-mode_step_example :
    ((next_control attached wifi_connects).0 ≡ (mode_step (unpack attached) wifi_connects).0)
    × (unpack (next_control attached wifi_connects).1
        ≡ (mode_step (unpack attached) wifi_connects).1)
    × ((next_control attached wifi_connects).1 < 2 ^ 32)
next_control-mode_step_example = next_control-mode_step attached wifi_connects (omega arith)

dap_policy-Admits_example :
    (is_allowed (dap_policy attached owner_usb false false) ≡ true)
    ↔ Admits (unpack attached) owner_usb false false
dap_policy-Admits_example = dap_policy-Admits attached owner_usb false false (omega arith)

route-lt : get_route attached < 3
unfolding get_route field_value
route-lt = omega arith

usb_admitted : is_allowed (dap_policy attached owner_usb false false) ≡ true
unfolding dap_policy get_route get_ota field_value test_bit
usb_admitted = refl

dap_policy_exclusive_example : is_allowed (dap_policy attached owner_network true false) ≡ false
dap_policy_exclusive_example = dap_policy_exclusive attached false true route-lt usb_admitted

-- A claim of the network under the first generation, and an operation that does not run.
abbrev claim : Option Claim
claim = some (record { owner = owner_network; generation = 1 })

abbrev operation : Option Operation
operation = some (record { owner = 0; generation = 0; active = false })

usb_preemption-Counted_example :
    Counted (transition 5 usb_attached) × Counted (state_dap_acquire owner_usb false claim)
usb_preemption-Counted_example = usb_preemption-Counted 5 false claim

operation_begin_reserves_example :
    Results RunsIfAllowed (dap_operation_begin owner_network true claim operation)
    × Results RunsIfAllowed (control_operation_begin true operation)
operation_begin_reserves_example = operation_begin_reserves owner_network true claim operation refl

unauthenticated-Denied_example :
    Results Denied (state_dap_acquire owner_network false claim)
    × Results Denied (dap_operation_begin owner_network false claim operation)
    × Results Denied (control_operation_begin false operation)
unauthenticated-Denied_example = unauthenticated-Denied claim operation

set_dap_route-SavedFirst_example : SavedFirst (set_dap_route 5 2)
set_dap_route-SavedFirst_example = set_dap_route-SavedFirst 5 2

-- Wi-Fi connects, which is no change for USB.
abbrev moves : List Move
moves = by_event wifi_connects ∷ []

few_changes : changes attached moves < 256
unfolding changes
few_changes = omega arith

same_stamp_usb :
    dap_policy_stamp attached owner_usb ≡ dap_policy_stamp (run attached moves) owner_usb
unfolding dap_policy_stamp run next_control next_wifi_epoch set_wifi increment_field field_value
    replace_field
same_stamp_usb = refl

stamp_detects_example : changes attached moves ≡ 0
stamp_detects_example =
    stamp_detects attached owner_usb moves (omega arith) (refl, tt) few_changes same_stamp_usb
