-- ===== src/Button.antt =====
-- The button's gestures: firmware/components/ble_provisioning/provisioning_button.c.
pub mod Invariant
pub mod Presses
pub mod Holds
pub mod Examples
use air_dap.Prelude.{
  ℕ, ◌+◌, ◌-◌, ◌%◌, ◌^◌, Bool, true, false, not, ltb, leb, ◌==◌, Option, none, some, if◌then◌else◌,
}

abbrev pub press_confirm_ms : ℕ
press_confirm_ms = 40

abbrev pub click_release_ms : ℕ
click_release_ms = 40

abbrev pub double_click_ms : ℕ
double_click_ms = 300

abbrev pub provisioning_toggle_ms : ℕ
provisioning_toggle_ms = 2000

abbrev pub hold_6_ms : ℕ
hold_6_ms = 6000

abbrev pub provisioning_clear_ms : ℕ
provisioning_clear_ms = 10000

abbrev pub release_confirm_ms : ℕ
release_confirm_ms = 200

-- `airdap_provisioning_button_action_t`
pub data ButtonAction : Type 0 where
  no_action toggle_ready clear_ready toggle clear single_click double_click hold_6_ready hold_6 :
      ButtonAction

-- `airdap_provisioning_button_state_t`
pub data ButtonState : Type 0 where
  idle press_debounce down release_debounce wait_second second_debounce second_down long_2s long_6s
        long_10s :
      ButtonState

-- `airdap_provisioning_button_t`
pub record Button : Type 0 where
  pub state : ButtonState
  pub held_ms : ℕ
  pub released_ms : ℕ
  pub wait_ms : ℕ
  pub second_press : Bool

-- All zeros.
abbrev pub idle_button : Button
idle_button = record {
  state = idle;
  held_ms = 0;
  released_ms = 0;
  wait_ms = 0;
  second_press = false;
}

unfoldable pub button_init : Option Button → Option Button
button_init none = none
button_init (some b) = some idle_button

-- On 32 bits.
unfoldable pub add_capped : ℕ → ℕ → ℕ → ℕ
add_capped value elapsed limit =
    let room = (limit + 2 ^ 32 - value) % 2 ^ 32 in
    (value + (if ltb elapsed room then elapsed else room)) % 2 ^ 32

-- `finish`
abbrev pub finish_button : ButtonAction → ButtonAction × Button
finish_button action = (action, idle_button)

-- What `hold` does after it has counted the time: `previous` is the time before.
unfoldable pub hold_from : ℕ → Button → ButtonAction × Button
hold_from previous b =
    if leb provisioning_clear_ms b.held_ms
    then (
      if ltb previous provisioning_clear_ms then clear_ready else no_action,
      record b { state = long_10s },
    )
    else if leb hold_6_ms b.held_ms
    then (if ltb previous hold_6_ms then hold_6_ready else no_action, record b { state = long_6s })
    else if leb provisioning_toggle_ms b.held_ms
    then (
      if ltb previous provisioning_toggle_ms then toggle_ready else no_action,
      record b { state = long_2s },
    )
    else if leb press_confirm_ms b.held_ms
    then (no_action, record b { state = if b.second_press then second_down else down })
    else (no_action, b)

unfoldable pub hold : Button → ℕ → ButtonAction × Button
hold b elapsed_ms =
    hold_from b.held_ms (record b {
      held_ms = add_capped b.held_ms elapsed_ms provisioning_clear_ms;
      released_ms = 0;
    })

unfoldable pub wait_for_second : Button → ℕ → ButtonAction × Button
wait_for_second b elapsed_ms =
    let wait = add_capped b.wait_ms elapsed_ms double_click_ms in
    if wait == double_click_ms
    then finish_button single_click
    else (no_action, record b { wait_ms = wait; state = wait_second })

-- What `release` does once the release is confirmed.
unfoldable pub released : Button → ButtonAction × Button
released b =
    if leb provisioning_toggle_ms b.held_ms
    then finish_button (
        if leb provisioning_clear_ms b.held_ms
        then clear
        else if leb hold_6_ms b.held_ms
        then hold_6
        else toggle)
    else if b.second_press
    then finish_button double_click
    else wait_for_second (record b { wait_ms = 0 }) b.released_ms

unfoldable pub release_button : Button → ℕ → ButtonAction × Button
release_button b elapsed_ms =
    let long_hold = leb provisioning_toggle_ms b.held_ms in
    let time =
      add_capped b.released_ms elapsed_ms
        (if long_hold then release_confirm_ms else double_click_ms) in
    let b' : Button = record b { released_ms = time; state = release_debounce } in
    if ltb time (if long_hold then release_confirm_ms else click_release_ms)
    then (no_action, b')
    else released b'

-- The `switch` of `airdap_provisioning_button_step`.
unfoldable pub sample : Button → Bool → ButtonState → ℕ → ButtonAction × Button
sample b pressed idle elapsed_ms =
    if not pressed then (no_action, b) else hold (record b { state = press_debounce }) elapsed_ms
sample b pressed wait_second elapsed_ms =
    if not pressed
    then wait_for_second b elapsed_ms
    else hold
        (record b {
          second_press = true;
          held_ms = 0;
          state = second_debounce;
          wait_ms = add_capped b.wait_ms elapsed_ms double_click_ms;
        })
        elapsed_ms
sample b pressed press_debounce elapsed_ms =
    if pressed then hold b elapsed_ms else finish_button no_action
sample b pressed second_debounce elapsed_ms =
    if not pressed
    then wait_for_second b elapsed_ms
    else hold (record b { wait_ms = add_capped b.wait_ms elapsed_ms double_click_ms }) elapsed_ms
sample b pressed other elapsed_ms =
    if pressed then hold b elapsed_ms else release_button b elapsed_ms

unfoldable pub button_step : Option Button → Bool → ℕ → ButtonAction × Option Button
button_step none pressed elapsed_ms = (no_action, none)
button_step (some b) pressed elapsed_ms =
    let out = sample b pressed b.state elapsed_ms in
    if elapsed_ms == 0 then (no_action, some b) else (out.0, some out.1)
