-- ===== src/Frame/Sequence/Numbers.antt =====
-- The numbers of sessions and requests: 1 to UINT32_MAX, going round past zero.
use air_dap.Frame.Sequence.{next_session_id, next_sequence, sequence_space, forward_distance}
use air_dap.Prelude.{ℕ, zero, suc, ◌+◌, ◌-◌, ◌%◌, ◌≤◌, ◌<◌, ◌≡◌, refl, ◌∙◌, arith}

-- The two counters agree.
next_session_id-next_sequence : (s : ℕ) → next_session_id s ≡ next_sequence s
unfolding next_session_id next_sequence
next_session_id-next_sequence s = refl

abbrev pub IsNumber : ℕ → Type 0
IsNumber s = (0 < s) × (s ≤ sequence_space)

-- The position of `next_sequence s` on the circle of numbers.
pub next_sequence_lem : (s : ℕ) → IsNumber s → next_sequence s ≡ s % sequence_space + 1
unfolding next_sequence
next_sequence_lem s h = ground arith

pub next_sequence-IsNumber : (s : ℕ) → IsNumber s → IsNumber (next_sequence s)
next_sequence-IsNumber s h = omega (arith, next_sequence_lem s h)

-- `k` steps of `next_sequence`.
unfoldable pub advance : ℕ → ℕ → ℕ
advance zero s = s
advance (suc k) s = next_sequence (advance k s)

pub advance_lem : (k s : ℕ) → IsNumber s → advance k s ≡ (s - 1 + k) % sequence_space + 1
unfolding advance
advance_lem zero s h = omega arith
advance_lem (suc k) s h =
    next_sequence_lem (advance k s) (omega (arith, advance_lem k s h))
    ∙ omega (arith, advance_lem k s h)

pub advance-IsNumber : (k s : ℕ) → IsNumber s → IsNumber (advance k s)
advance-IsNumber k s h = omega (arith, advance_lem k s h)

advance_around : (k s : ℕ) → IsNumber s → k ≡ sequence_space → advance k s ≡ s
advance_around k s h e = omega (arith, advance_lem k s h)

advance_injective :
    (s i j : ℕ)
    → IsNumber s
    → i < sequence_space
    → j < sequence_space
    → advance i s ≡ advance j s
    → i ≡ j
advance_injective s i j h hi hj e = omega (arith, advance_lem i s h, advance_lem j s h)

-- The numbers of sessions and of requests run through 1 to UINT32_MAX: neither counter gives zero,
-- each returns to its start after UINT32_MAX steps, and gives no number twice before that.
pub advance_cycle :
    (s i j : ℕ)
    → IsNumber s
    → (advance sequence_space s ≡ s)
      × (next_session_id s ≡ next_sequence s)
      × IsNumber (advance i s)
      × (i < sequence_space → j < sequence_space → advance i s ≡ advance j s → i ≡ j)
advance_cycle s i j h = (
  advance_around sequence_space s h refl,
  next_session_id-next_sequence s,
  advance-IsNumber i s h,
  advance_injective s i j h,
)

-- The distance that the validator computes counts the steps from the expected number.
pub forward_distance-advance :
    (k s : ℕ) → IsNumber s → k < sequence_space → forward_distance (advance k s) s ≡ k
unfolding forward_distance
forward_distance-advance k s h small = omega (arith, advance_lem k s h)
