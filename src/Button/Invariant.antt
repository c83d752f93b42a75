-- ===== src/Button/Invariant.antt =====
-- What the fields of a button of firmware/components/ble_provisioning/provisioning_button.c hold in each
-- state.
use air_dap.Button.{
  ButtonAction, ButtonState, idle, press_debounce, down, release_debounce, wait_second,
  second_debounce, second_down, long_2s, long_6s, long_10s, Button, idle_button, add_capped,
  hold_from, hold, wait_for_second, released, release_button, sample, button_step,
  provisioning_clear_ms, hold_6_ms, provisioning_toggle_ms, press_confirm_ms, double_click_ms,
  release_confirm_ms, click_release_ms,
}
use air_dap.Prelude.{
  ℕ, ◌+◌, ◌^◌, ◌≤◌, ◌<◌, ◌≡◌, ◌⊎◌, inl, inr, refl, arith, Bool, true, false, not, ltb, leb, ◌==◌,
  Option, none, some, min, if◌then◌else◌, subst, sym, Bool-cases,
}

-- Within the limit, a capped sum is the lesser of the sum and the limit: it does not wrap around.
pub add_capped-min :
    (value elapsed limit : ℕ)
    → value ≤ limit
    → limit < 2 ^ 31
    → add_capped value elapsed limit ≡ min (value + elapsed) limit
unfolding add_capped
add_capped-min value elapsed limit h k = ground (arith, h, k)

-- The times that go with a state.
abbrev pub StateFits : ButtonState → Button → Type 0
StateFits idle b =
    (b.held_ms ≡ 0) × (b.released_ms ≡ 0) × (b.wait_ms ≡ 0) × (b.second_press ≡ false)
StateFits press_debounce b = (b.held_ms < press_confirm_ms) × (b.second_press ≡ false)
StateFits second_debounce b = (b.held_ms < press_confirm_ms) × (b.second_press ≡ true)
StateFits down b =
    (press_confirm_ms ≤ b.held_ms)
    × (b.held_ms < provisioning_toggle_ms)
    × (b.second_press ≡ false)
    × (b.released_ms ≡ 0)
StateFits second_down b =
    (press_confirm_ms ≤ b.held_ms)
    × (b.held_ms < provisioning_toggle_ms)
    × (b.second_press ≡ true)
    × (b.released_ms ≡ 0)
StateFits long_2s b =
    (provisioning_toggle_ms ≤ b.held_ms) × (b.held_ms < hold_6_ms) × (b.released_ms ≡ 0)
StateFits long_6s b =
    (hold_6_ms ≤ b.held_ms) × (b.held_ms < provisioning_clear_ms) × (b.released_ms ≡ 0)
StateFits long_10s b = (b.held_ms ≡ provisioning_clear_ms) × (b.released_ms ≡ 0)
StateFits release_debounce b =
    (press_confirm_ms ≤ b.held_ms)
    × (b.released_ms
        < (if leb provisioning_toggle_ms b.held_ms then release_confirm_ms else click_release_ms))
StateFits wait_second b = (b.held_ms < provisioning_toggle_ms) × (b.wait_ms < double_click_ms)

-- No time is past its limit, and the state goes with the times.
pub record IsConsistent (b : Button) : Type 0 where
  pub held-le : b.held_ms ≤ provisioning_clear_ms
  pub wait-le : b.wait_ms ≤ double_click_ms
  pub state_fits : StateFits b.state b

pub idle-IsConsistent : IsConsistent idle_button
idle-IsConsistent = record {
  held-le = omega arith;
  wait-le = omega arith;
  state_fits = (refl, refl, refl, refl);
}

choose :
    (c : Bool) (x y : ButtonAction × Button)
    → (c ≡ true → IsConsistent x.1)
    → (c ≡ false → IsConsistent y.1)
    → IsConsistent (if c then x else y).1
choose true x y h k = h refl
choose false x y h k = k refl

-- A hold may start from any state that a press may leave: while its press is not confirmed it stays.
abbrev Pressing : Button → Type 0
Pressing b =
    (b.held_ms ≤ provisioning_clear_ms)
    × (b.wait_ms ≤ double_click_ms)
    × (b.released_ms ≡ 0)
    × ((press_confirm_ms ≤ b.held_ms)
        ⊎ ((b.state ≡ press_debounce) × (b.second_press ≡ false))
        ⊎ ((b.state ≡ second_debounce) × (b.second_press ≡ true)))

hold_from-IsConsistent :
    (previous : ℕ) (b : Button) → Pressing b → IsConsistent (hold_from previous b).1
unfolding hold_from
hold_from-IsConsistent previous b h =
    choose (leb provisioning_clear_ms b.held_ms) _ _
      (λ e. record { held-le = h.0; wait-le = h.1; state_fits = (ground (arith, e, h.0), h.2) })
      λ e.
        choose (leb hold_6_ms b.held_ms) _ _
          (λ f. record {
            held-le = h.0;
            wait-le = h.1;
            state_fits = (ground (arith, f), ground (arith, e), h.2);
          })
          λ f.
            choose (leb provisioning_toggle_ms b.held_ms) _ _
              (λ g. record {
                held-le = h.0;
                wait-le = h.1;
                state_fits = (ground (arith, g), ground (arith, f), h.2);
              })
              λ g.
                choose (leb press_confirm_ms b.held_ms) _ _ (λ k. pressed g k b.second_press refl)
                  (λ k. waiting k h.3)
  where
    pressed :
        leb provisioning_toggle_ms b.held_ms ≡ false
        → leb press_confirm_ms b.held_ms ≡ true
        → (s : Bool) → b.second_press ≡ s
        → IsConsistent (record b { state = if s then second_down else down })
    pressed g k true q = record {
      held-le = h.0;
      wait-le = h.1;
      state_fits = (ground (arith, k), ground (arith, g), q, h.2);
    }
    pressed g k false q = record {
      held-le = h.0;
      wait-le = h.1;
      state_fits = (ground (arith, k), ground (arith, g), q, h.2);
    }

    waiting :
        leb press_confirm_ms b.held_ms ≡ false
        → (press_confirm_ms ≤ b.held_ms)
          ⊎ ((b.state ≡ press_debounce) × (b.second_press ≡ false))
          ⊎ ((b.state ≡ second_debounce) × (b.second_press ≡ true))
        → IsConsistent b
    waiting k (inl m) = absurd (ground (arith, k, m))
    waiting k (inr (inl m)) = record {
      held-le = h.0;
      wait-le = h.1;
      state_fits = subst (λ (t : ButtonState). StateFits t b) (sym m.0) (ground (arith, k), m.1);
    }
    waiting k (inr (inr m)) = record {
      held-le = h.0;
      wait-le = h.1;
      state_fits = subst (λ (t : ButtonState). StateFits t b) (sym m.0) (ground (arith, k), m.1);
    }

-- Where a hold may start.
abbrev Holdable : Button → Type 0
Holdable b =
    (b.held_ms ≤ provisioning_clear_ms)
    × (b.wait_ms ≤ double_click_ms)
    × ((press_confirm_ms ≤ b.held_ms)
        ⊎ ((b.state ≡ press_debounce) × (b.second_press ≡ false))
        ⊎ ((b.state ≡ second_debounce) × (b.second_press ≡ true)))

hold-IsConsistent : (b : Button) (elapsed_ms : ℕ) → Holdable b → IsConsistent (hold b elapsed_ms).1
unfolding hold
hold-IsConsistent b elapsed_ms h = hold_from-IsConsistent b.held_ms _ (
  ground (arith, capped),
  h.1,
  refl,
  elim h.2 [ inl m ↦ inl (ground (arith, capped, m, h.0)) | inr m ↦ inr m ],
)
  where
    capped :
        add_capped b.held_ms elapsed_ms provisioning_clear_ms
        ≡ min (b.held_ms + elapsed_ms) provisioning_clear_ms
    capped = add_capped-min b.held_ms elapsed_ms provisioning_clear_ms h.0 (omega arith)

wait_for_second-IsConsistent :
    (b : Button) (elapsed_ms : ℕ)
    → b.held_ms < provisioning_toggle_ms
    → b.wait_ms ≤ double_click_ms
    → IsConsistent (wait_for_second b elapsed_ms).1
unfolding wait_for_second
wait_for_second-IsConsistent b elapsed_ms short fits =
    choose (add_capped b.wait_ms elapsed_ms double_click_ms == double_click_ms) _ _
      (λ e. idle-IsConsistent)
      (λ e. record {
        held-le = omega (arith, short);
        wait-le = ground (arith, capped);
        state_fits = (short, ground (arith, capped, e));
      })
  where
    capped :
        add_capped b.wait_ms elapsed_ms double_click_ms
        ≡ min (b.wait_ms + elapsed_ms) double_click_ms
    capped = add_capped-min b.wait_ms elapsed_ms double_click_ms fits (omega arith)

released-IsConsistent : (b : Button) → IsConsistent (released b).1
unfolding released
released-IsConsistent b =
    choose (leb provisioning_toggle_ms b.held_ms) _ _ (λ e. idle-IsConsistent)
      λ e.
        choose b.second_press _ _ (λ f. idle-IsConsistent)
          (λ f.
            wait_for_second-IsConsistent (record b { wait_ms = 0 }) b.released_ms
              (ground (arith, e)) (omega arith))

release_button-IsConsistent :
    (b : Button) (elapsed_ms : ℕ)
    → press_confirm_ms ≤ b.held_ms
    → b.held_ms ≤ provisioning_clear_ms
    → b.wait_ms ≤ double_click_ms
    → IsConsistent (release_button b elapsed_ms).1
unfolding release_button
release_button-IsConsistent b elapsed_ms pressed held wait =
    choose
      (ltb
        (add_capped b.released_ms elapsed_ms
          (if leb provisioning_toggle_ms b.held_ms then release_confirm_ms else double_click_ms))
        (if leb provisioning_toggle_ms b.held_ms then release_confirm_ms else click_release_ms))
      _ _
      (λ e. record { held-le = held; wait-le = wait; state_fits = (pressed, ground (arith, e)) })
      (λ e. released-IsConsistent _)

module _ (b : Button) (pressed : Bool) (elapsed_ms : ℕ) (held : b.held_ms ≤ provisioning_clear_ms)
    (wait : b.wait_ms ≤ double_click_ms) where
  either_way :
      press_confirm_ms ≤ b.held_ms
      → IsConsistent (if pressed then hold b elapsed_ms else release_button b elapsed_ms).1
  either_way long =
      choose pressed _ _ (λ _. hold-IsConsistent b elapsed_ms (held, wait, inl long))
        (λ _. release_button-IsConsistent b elapsed_ms long held wait)

  waited : add_capped b.wait_ms elapsed_ms double_click_ms ≤ double_click_ms
  waited = ground (arith, add_capped-min b.wait_ms elapsed_ms double_click_ms wait (omega arith))

  sample_at :
      (s : ButtonState)
      → b.state ≡ s
      → StateFits s b
      → IsConsistent (sample b pressed s elapsed_ms).1
  unfolding sample
  sample_at idle p h =
      choose (not pressed) _ _
        (λ _. record {
          held-le = held;
          wait-le = wait;
          state_fits = subst (λ (t : ButtonState). StateFits t b) (sym p) h;
        })
        (λ _.
          hold-IsConsistent (record b { state = press_debounce }) elapsed_ms
            (held, wait, inr (inl (refl, h.3))))
  sample_at wait_second p h =
      choose (not pressed) _ _ (λ _. wait_for_second-IsConsistent b elapsed_ms h.0 wait)
        (λ _. hold-IsConsistent _ elapsed_ms (omega arith, waited, inr (inr (refl, refl))))
  sample_at press_debounce p h =
      choose pressed _ _ (λ _. hold-IsConsistent b elapsed_ms (held, wait, inr (inl (p, h.1))))
        (λ _. idle-IsConsistent)
  sample_at second_debounce p h =
      choose (not pressed) _ _
        (λ _. wait_for_second-IsConsistent b elapsed_ms (omega (arith, h.0)) wait)
        (λ _. hold-IsConsistent _ elapsed_ms (held, waited, inr (inr (p, h.1))))
  sample_at down p h = either_way h.0
  sample_at second_down p h = either_way h.0
  sample_at long_2s p h = either_way (omega (arith, h.0))
  sample_at long_6s p h = either_way (omega (arith, h.0))
  sample_at long_10s p h = either_way (omega (arith, h.0))
  sample_at release_debounce p h = either_way h.0

pub sample-IsConsistent :
    (b : Button) (pressed : Bool) (elapsed_ms : ℕ)
    → IsConsistent b
    → IsConsistent (sample b pressed b.state elapsed_ms).1
sample-IsConsistent b pressed elapsed_ms ok =
    sample_at b pressed elapsed_ms ok.held-le ok.wait-le b.state refl ok.state_fits

-- A button behind a pointer.
abbrev pub Consistent : Option Button → Type 0
Consistent none = Unit
Consistent (some b) = IsConsistent b

-- Every sample, of any length and level, leaves a consistent button consistent: its held time is at
-- most 10 s and its wait at most 300 ms, and its state is the one for its times, as `StateFits` lists
-- them: pressed from 40 ms, long from 2 s, 6 s and 10 s on, and released for less than it takes.
pub button_step-IsConsistent :
    (b : Button) (pressed : Bool) (elapsed_ms : ℕ)
    → IsConsistent b
    → Consistent (button_step (some b) pressed elapsed_ms).1
unfolding button_step
button_step-IsConsistent b pressed elapsed_ms ok = elim (Bool-cases (elapsed_ms == 0)) [
  | inl e ↦ rw e ok
  | inr e ↦ rw e (sample_at b pressed elapsed_ms ok.held-le ok.wait-le b.state refl ok.state_fits)
]
