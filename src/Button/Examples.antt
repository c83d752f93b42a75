-- ===== src/Button/Examples.antt =====
-- The theorems on the button of firmware/components/ble_provisioning/provisioning_button.c at concrete
-- samples.
use air_dap.Button.{
  hold_6, single_click, idle_button, button_step, sample, add_capped, hold, hold_from,
  wait_for_second, release_button, released,
}
use air_dap.Button.Invariant.{Consistent, idle-IsConsistent, button_step-IsConsistent}
use air_dap.Button.Presses.{press}
use air_dap.Button.Holds.{releases, Quiet, press-gesture}
use air_dap.Prelude.{ℕ, ◌≡◌, refl, arith, true, false, some, List, [], ◌∷◌}

-- Held for seven seconds, in four samples.
abbrev samples : List ℕ
samples = 20 ∷ 30 ∷ 1950 ∷ 5000 ∷ []

press-gesture_example :
    let (actions, after) = releases (press (some idle_button) samples) (20 ∷ 150 ∷ []) in
    Quiet actions × (button_step after false 30 ≡ (hold_6, some idle_button))
press-gesture_example =
    press-gesture samples (20 ∷ 150 ∷ []) 30 (omega arith) (omega arith) (omega arith)

button_step-IsConsistent_example : Consistent (button_step (some idle_button) true 50).1
button_step-IsConsistent_example = button_step-IsConsistent idle_button true 50 idle-IsConsistent

-- A click: the release, and the end of the window in which a second press may come.
click :
    (button_step (button_step (button_step (some idle_button) true 50).1 false 50).1 false 250).0
    ≡ single_click
unfolding button_step sample add_capped hold hold_from wait_for_second release_button released
click = refl
