-- ===== src/Button/Holds.antt =====
-- What a long hold of the button of firmware/components/ble_provisioning/provisioning_button.c does.
use air_dap.Button.{
  ButtonAction, no_action, ButtonState, idle, press_debounce, down, release_debounce, wait_second,
  second_debounce, second_down, long_2s, long_6s, long_10s, Button, idle_button, released,
  release_button, sample, button_step, toggle, clear, hold_6, provisioning_clear_ms, hold_6_ms,
  provisioning_toggle_ms, release_confirm_ms,
}
use air_dap.Button.Invariant.{
  add_capped-min, StateFits, IsConsistent, idle-IsConsistent, sample-IsConsistent,
}
use air_dap.Button.Presses.{press, total, Pressed, press-Pressed}
use air_dap.Prelude.{
  ℕ, ◌+◌, ◌≤◌, ◌≡◌, inl, inr, refl, arith, false, leb, ◌==◌, Option, some, if◌then◌else◌, All, ◌<◌,
  List, [], ◌∷◌, Bool-cases, ap, ◌∙◌, subst,
}

-- What a hold of some length means.
abbrev pub gesture : ℕ → ButtonAction
gesture held =
    if leb provisioning_clear_ms held then clear else if leb hold_6_ms held then hold_6 else toggle

-- The samples of a release, of these lengths: the actions reported, and the button after them.
unfoldable pub releases : Option Button → List ℕ → List ButtonAction × Option Button
releases b [] = ([], b)
releases b (r ∷ rs) =
    let (action, b') = button_step b false r in
    let (actions, after) = releases b' rs in (action ∷ actions, after)

abbrev pub Quiet : List ButtonAction → Type 0
Quiet = All (λ (a : ButtonAction). a ≡ no_action)

-- A button held for `held`, and released since then for `t`.
record Releasing (held t : ℕ) (b : Button) : Type 0 where
  consistent : IsConsistent b
  long : provisioning_toggle_ms ≤ b.held_ms
  kept : b.held_ms ≡ held
  so_far : b.released_ms ≡ t

-- A released sample after a long hold is a release.
sample_long :
    (b : Button) (r : ℕ) (s : ButtonState)
    → StateFits s b
    → provisioning_toggle_ms ≤ b.held_ms
    → sample b false s r ≡ release_button b r
unfolding sample
sample_long b r idle h long = absurd (omega (arith, h.0, long))
sample_long b r wait_second h long = absurd (omega (arith, h.0, long))
sample_long b r press_debounce h long = absurd (omega (arith, h.0, long))
sample_long b r second_debounce h long = absurd (omega (arith, h.0, long))
sample_long b r down h long = absurd (omega (arith, h.1, long))
sample_long b r second_down h long = absurd (omega (arith, h.1, long))
sample_long b r long_2s h long = refl
sample_long b r long_6s h long = refl
sample_long b r long_10s h long = refl
sample_long b r release_debounce h long = refl

-- While it is too short, a release is only counted.
release_counts :
    (b : Button) (held t r : ℕ)
    → Releasing held t b
    → t + r < release_confirm_ms
    → release_button b r ≡ (no_action, record b { released_ms = t + r; state = release_debounce })
unfolding release_button
release_counts b held t r h short = ground (
  arith,
  h.long,
  h.so_far,
  short,
  add_capped-min b.released_ms r release_confirm_ms (omega (arith, h.so_far, short)) (omega arith),
)

-- Once it is long enough, the hold is reported.
release_reports :
    (b : Button) (held t r : ℕ)
    → Releasing held t b
    → t ≤ release_confirm_ms
    → release_confirm_ms ≤ t + r
    → release_button b r ≡ (gesture held, idle_button)
unfolding release_button released
release_reports b held t r h fits enough = ground (
  arith,
  h.long,
  h.kept,
  h.so_far,
  enough,
  add_capped-min b.released_ms r release_confirm_ms (omega (arith, h.so_far, fits)) (omega arith),
)

step-Releasing :
    (b : Button) (held t r : ℕ)
    → Releasing held t b
    → t + r < release_confirm_ms
    → (b' : Button) × (button_step (some b) false r ≡ (no_action, some b'))
      × Releasing held (t + r) b'
unfolding button_step
step-Releasing b held t r h short = elim (Bool-cases (r == 0)) [
  | inl e ↦ (
    b,
    rw e refl,
    record {
      consistent = h.consistent;
      long = h.long;
      kept = h.kept;
      so_far = ground (arith, h.so_far, e);
    },
  )
  | inr e ↦ (
    (sample b false b.state r).1,
    rw e (ap (λ (out : ButtonAction × Button). (out.0, some (sample b false b.state r).1)) counted),
    record {
      consistent = sample-IsConsistent b false r h.consistent;
      long = ground (arith, h.long, counted);
      kept = ground (arith, h.kept, counted);
      so_far = ground (arith, counted);
    },
  )
]
  where
    counted :
        sample b false b.state r
        ≡ (no_action, record b { released_ms = t + r; state = release_debounce })
    counted =
        sample_long b r b.state h.consistent.state_fits h.long ∙ release_counts b held t r h short

releases-Quiet :
    (rs : List ℕ) (b : Button) (held t : ℕ)
    → Releasing held t b
    → t + total rs < release_confirm_ms
    → Quiet (releases (some b) rs).0
      × ((b' : Button) × ((releases (some b) rs).1 ≡ some b') × Releasing held (t + total rs) b')
unfolding releases
releases-Quiet [] b held t h short =
    (tt, (b, refl, subst (λ (n : ℕ). Releasing held n b) (omega arith) h))
releases-Quiet (r ∷ rs) b held t h short =
    let one = step-Releasing b held t r h (omega (arith, short)) in
    let rest = releases-Quiet rs one.0 held (t + r) one.2 (omega (arith, short)) in
    rw one.1 (
      (refl, rest.0),
      (rest.1.0, rest.1.1, subst (λ (n : ℕ). Releasing held n rest.1.0) (omega arith) rest.1.2),
    )

step_reports :
    (b : Button) (held t r : ℕ)
    → Releasing held t b
    → t < release_confirm_ms
    → release_confirm_ms ≤ t + r
    → button_step (some b) false r ≡ (gesture held, some idle_button)
unfolding button_step
step_reports b held t r h short enough = elim (Bool-cases (r == 0)) [
  | inl e ↦ absurd (ground (arith, short, enough, e))
  | inr e ↦ rw e (
      ap (λ (out : ButtonAction × Button). (out.0, some out.1))
        (sample_long b r b.state h.consistent.state_fits h.long
          ∙ release_reports b held t r h (omega (arith, short)) enough))
]

-- However the level is sampled, while it is held and while it is released: after a press from the idle
-- state that is held for 2 s or more in all, no released sample reports anything until 200 ms of release
-- have come together; the sample that completes them is reported with the gesture of the whole length of
-- the press, the toggle from 2 s, the six-second hold from 6 s and the clearing from 10 s on, and the
-- button is idle again.
pub press-gesture :
    (ds rs : List ℕ) (r : ℕ)
    → provisioning_toggle_ms ≤ total ds
    → total rs < release_confirm_ms
    → release_confirm_ms ≤ total rs + r
    → let (actions, after) = releases (press (some idle_button) ds) rs in
      Quiet actions × (button_step after false r ≡ (gesture (total ds), some idle_button))
press-gesture ds rs r long short enough = rw pressed.1 (
  quiet.0,
  ap (λ (o : Option Button). button_step o false r) quiet.1.1
      ∙ step_reports quiet.1.0 pressed.0.held_ms (total rs) r quiet.1.2 short enough
      ∙ ap (λ (a : ButtonAction). (a, some idle_button)) same,
)
  where
    pressed : (b : Button) × (press (some idle_button) ds ≡ some b) × Pressed (0 + total ds) b
    pressed = press-Pressed ds idle_button 0 (record {
      consistent = idle-IsConsistent;
      held = refl;
      not_waiting = refl;
      not_released = refl;
    })

    up : Releasing pressed.0.held_ms 0 pressed.0
    up = record {
      consistent = pressed.2.consistent;
      long = omega (arith, pressed.2.held, long);
      kept = refl;
      so_far = pressed.2.not_released;
    }

    quiet :
        Quiet (releases (some pressed.0) rs).0
        × ((b' : Button) × ((releases (some pressed.0) rs).1 ≡ some b')
            × Releasing pressed.0.held_ms (total rs) b')
    quiet =
        subst
          (λ (n : ℕ).
            Quiet (releases (some pressed.0) rs).0
            × ((b' : Button) × ((releases (some pressed.0) rs).1 ≡ some b')
                × Releasing pressed.0.held_ms n b'))
          (omega arith) (releases-Quiet rs pressed.0 pressed.0.held_ms 0 up (omega (arith, short)))

    same : gesture pressed.0.held_ms ≡ gesture (total ds)
    same = ground (arith, pressed.2.held)
