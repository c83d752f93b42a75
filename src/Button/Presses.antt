-- ===== src/Button/Presses.antt =====
-- What a press of the button of firmware/components/ble_provisioning/provisioning_button.c counts, however it is sampled.
use air_dap.Button.{
  ButtonState, idle, press_debounce, down, release_debounce, wait_second, second_debounce,
  second_down, long_2s, long_6s, long_10s, Button, add_capped, hold_from, hold, sample, button_step,
  provisioning_clear_ms, double_click_ms,
}
use air_dap.Button.Invariant.{add_capped-min, IsConsistent, sample-IsConsistent}
use air_dap.Prelude.{
  ℕ, ◌+◌, ◌≡◌, inl, inr, refl, arith, Bool, true, false, ◌==◌, Option, some, min, List, [], ◌∷◌,
  Bool-cases, ap, ◌∙◌, subst,
}

-- The samples of a press, of these lengths.
unfoldable pub press : Option Button → List ℕ → Option Button
press b [] = b
press b (d ∷ ds) = press (button_step b true d).1 ds

abbrev pub total : List ℕ → ℕ
total [] = 0
total (d ∷ ds) = d + total ds

abbrev waits : ButtonState → Bool
waits wait_second = true
waits _ = false

-- A button pressed for `t`.
pub record Pressed (t : ℕ) (b : Button) : Type 0 where
  pub consistent : IsConsistent b
  pub held : b.held_ms ≡ min t provisioning_clear_ms
  pub not_waiting : waits b.state ≡ false
  pub not_released : b.released_ms ≡ 0

hold_from-keeps :
    (previous : ℕ) (b : Button)
    → waits b.state ≡ false
    → ((hold_from previous b).1.held_ms ≡ b.held_ms)
      × (waits (hold_from previous b).1.state ≡ false)
unfolding hold_from
hold_from-keeps previous b h = ground (arith, h)

hold-keeps :
    (b : Button) (d t : ℕ)
    → waits b.state ≡ false
    → b.held_ms ≡ min t provisioning_clear_ms
    → ((hold b d).1.held_ms ≡ min (t + d) provisioning_clear_ms)
      × (waits (hold b d).1.state ≡ false)
unfolding hold
hold-keeps b d t h same = (kept.0 ∙ capped, kept.1)
  where
    b' : Button
    b' = record b { held_ms = add_capped b.held_ms d provisioning_clear_ms; released_ms = 0 }

    kept :
        ((hold_from b.held_ms b').1.held_ms ≡ b'.held_ms)
        × (waits (hold_from b.held_ms b').1.state ≡ false)
    kept = hold_from-keeps b.held_ms b' h

    capped : add_capped b.held_ms d provisioning_clear_ms ≡ min (t + d) provisioning_clear_ms
    capped = omega (
      arith,
      add_capped-min b.held_ms d provisioning_clear_ms (omega (arith, same)) (omega arith),
      same,
    )

-- A pressed sample from a state that does not wait is a hold.
sample-keeps :
    (b : Button) (d t : ℕ) (s : ButtonState)
    → waits s ≡ false
    → b.state ≡ s
    → b.held_ms ≡ min t provisioning_clear_ms
    → ((sample b true s d).1.held_ms ≡ min (t + d) provisioning_clear_ms)
      × (waits (sample b true s d).1.state ≡ false)
unfolding sample
sample-keeps b d t idle h p same = hold-keeps (record b { state = press_debounce }) d t refl same
sample-keeps b d t wait_second h p same = absurd (cc)
sample-keeps b d t press_debounce h p same = hold-keeps b d t (ap waits p) same
sample-keeps b d t second_debounce h p same =
    hold-keeps (record b { wait_ms = add_capped b.wait_ms d double_click_ms }) d t (ap waits p) same
sample-keeps b d t down h p same = hold-keeps b d t (ap waits p) same
sample-keeps b d t second_down h p same = hold-keeps b d t (ap waits p) same
sample-keeps b d t long_2s h p same = hold-keeps b d t (ap waits p) same
sample-keeps b d t long_6s h p same = hold-keeps b d t (ap waits p) same
sample-keeps b d t long_10s h p same = hold-keeps b d t (ap waits p) same
sample-keeps b d t release_debounce h p same = hold-keeps b d t (ap waits p) same

hold-released : (b : Button) (d : ℕ) → (hold b d).1.released_ms ≡ 0
unfolding hold hold_from
hold-released b d = ground arith

-- A pressed sample starts the time of the release again.
sample-released : (b : Button) (d : ℕ) (s : ButtonState) → (sample b true s d).1.released_ms ≡ 0
unfolding sample
sample-released b d idle = hold-released (record b { state = press_debounce }) d
sample-released b d wait_second = hold-released _ d
sample-released b d press_debounce = hold-released b d
sample-released b d second_debounce = hold-released _ d
sample-released b d down = hold-released b d
sample-released b d second_down = hold-released b d
sample-released b d long_2s = hold-released b d
sample-released b d long_6s = hold-released b d
sample-released b d long_10s = hold-released b d
sample-released b d release_debounce = hold-released b d

-- One pressed sample.
step-Pressed :
    (b : Button) (d t : ℕ)
    → Pressed t b
    → (b' : Button) × ((button_step (some b) true d).1 ≡ some b') × Pressed (t + d) b'
unfolding button_step
step-Pressed b d t h = elim (Bool-cases (d == 0)) [
  | inl e ↦ (
    b,
    rw e refl,
    record {
      consistent = h.consistent;
      held = h.held ∙ ap (λ (n : ℕ). min n provisioning_clear_ms) (ground (arith, e));
      not_waiting = h.not_waiting;
      not_released = h.not_released;
    },
  )
  | inr e ↦
      let kept = sample-keeps b d t b.state h.not_waiting refl h.held in
      (
        (sample b true b.state d).1,
        rw e refl,
        record {
          consistent = sample-IsConsistent b true d h.consistent;
          held = kept.0;
          not_waiting = kept.1;
          not_released = sample-released b d b.state;
        },
      )
]

pub press-Pressed :
    (ds : List ℕ) (b : Button) (t : ℕ)
    → Pressed t b
    → (b' : Button) × (press (some b) ds ≡ some b') × Pressed (t + total ds) b'
unfolding press
press-Pressed [] b t h = (b, refl, subst (λ (n : ℕ). Pressed n b) (omega arith) h)
press-Pressed (d ∷ ds) b t h =
    let one = step-Pressed b d t h in
    let rest = press-Pressed ds one.0 (t + d) one.2 in
    (
      rest.0,
      ap (λ (o : Option Button). press o ds) one.1 ∙ rest.1,
      subst (λ (n : ℕ). Pressed n rest.0) (omega arith) rest.2,
    )
