-- ===== src/Ownership/Word.antt =====
-- The control word of firmware/components/dap_ownership/dap_ownership.c and its fields.
use air_dap.Prelude.{
  ℕ, ◌+◌, ◌-◌, ◌*◌, ◌/◌, ◌%◌, ◌^◌, ◌≤◌, ◌<◌, ◌≡◌, ap₂, refl, arith, Bool, true, false, not, ◌&&◌,
  leb, ltb, ◌==◌, bit_and, bit_or, Option, none, some,
}
use air_dap.Prelude.Bits.{
  bit_and_seven, bit_and_eight, bit_or_eight, bit_or-add, bit_and-not_eight, bit_or_eight_digit,
}

-- `airdap_dap_owner_t`
abbrev pub owner_none : ℕ
owner_none = 0

abbrev pub owner_usb : ℕ
owner_usb = 1

abbrev pub owner_network : ℕ
owner_network = 2

abbrev pub owner_diagnostic : ℕ
owner_diagnostic = 3

abbrev pub state_transition : ℕ
state_transition = 4

abbrev pub state_offline : ℕ
state_offline = 5

abbrev pub state_suspended : ℕ
state_suspended = 6

abbrev pub state_uninitialized : ℕ
state_uninitialized = 7

abbrev pub generation_max : ℕ
generation_max = 0xffff_ffff / 16

pub data Result : Type 0 where
  ok already_owner busy not_owner offline invalid_argument invalid_state : Result

pub record Claim : Type 0 where
  pub owner : ℕ
  pub generation : ℕ

pub record Operation : Type 0 where
  pub owner : ℕ
  pub generation : ℕ
  pub active : Bool

abbrev pub zero_claim : Claim
zero_claim = record { owner = 0; generation = 0 }

unfoldable pub is_owner : ℕ → Bool
is_owner state = leb owner_usb state && leb state owner_diagnostic

unfoldable pub control_state : ℕ → ℕ
control_state control = bit_and control 7

unfoldable pub control_generation : ℕ → ℕ
control_generation control = control / 2 ^ 4

-- `(control & OWNERSHIP_CONTROL_ACTIVE) != 0U`
unfoldable pub is_active : ℕ → Bool
is_active control = not (bit_and control 8 == 0)

unfoldable pub make_control : ℕ → ℕ → ℕ
make_control generation state = bit_or (generation * 2 ^ 4 % 2 ^ 32) state

-- `control | OWNERSHIP_CONTROL_ACTIVE`
unfoldable pub set_active : ℕ → ℕ
set_active control = bit_or control 8

-- `control & ~OWNERSHIP_CONTROL_ACTIVE`
unfoldable pub clear_active : ℕ → ℕ
clear_active control = bit_and control (2 ^ 32 - 1 - 8)

unfoldable pub valid_claim : Option Claim → Bool
unfolding is_owner
valid_claim none = false
valid_claim (some claim) =
    is_owner claim.owner && ltb 0 claim.generation && leb claim.generation generation_max

-- The fields as arithmetic.
pub control_state_lem : (control : ℕ) → control_state control ≡ control % 8
unfolding control_state
control_state_lem control = bit_and_seven control

pub is_active_lem : (control : ℕ) → is_active control ≡ (control / 8 % 2 == 1)
unfolding is_active
is_active_lem control = ground (arith, bit_and_eight control)

pub control_generation_lem : (control : ℕ) → control_generation control ≡ control / 16
unfolding control_generation
control_generation_lem control = refl

pub make_control_lem :
    (generation state : ℕ)
    → generation ≤ generation_max
    → state < 8
    → make_control generation state ≡ generation * 16 + state
unfolding make_control
make_control_lem generation state hg hs =
    omega (arith, same, bit_or-add 4 generation state (omega arith))
  where
    same : bit_or (generation * 2 ^ 4 % 2 ^ 32) state ≡ bit_or (generation * 2 ^ 4) state
    same = ap₂ bit_or (omega arith) refl

-- What every stored word satisfies: it fits the type, and an operation runs only under an owner or
-- under none.
pub record IsWord (control : ℕ) : Type 0 where
  pub fits : control < 2 ^ 32
  pub idle : is_active control ≡ true → control_state control ≤ owner_diagnostic

-- Words that `make_control` builds.
pub make_control_fields :
    (generation state : ℕ)
    → generation ≤ generation_max
    → state < 8
    → (control_state (make_control generation state) ≡ state)
      × (control_generation (make_control generation state) ≡ generation)
      × (is_active (make_control generation state) ≡ false)
      × (make_control generation state < 2 ^ 32)
make_control_fields generation state hg hs = rw (make_control_lem generation state hg hs) (
  omega (arith, control_state_lem (generation * 16 + state)),
  omega (arith, control_generation_lem (generation * 16 + state)),
  ground (arith, is_active_lem (generation * 16 + state)),
  omega arith,
)

-- Setting the active bit where it is clear changes nothing else.
pub set_active_fields :
    (control : ℕ)
    → control < 2 ^ 32
    → is_active control ≡ false
    → (control_state (set_active control) ≡ control_state control)
      × (control_generation (set_active control) ≡ control_generation control)
      × (is_active (set_active control) ≡ true)
      × (set_active control < 2 ^ 32)
unfolding set_active
set_active_fields control h a = rw (bit_or_eight control clear) (
  omega (arith, clear, control_state_lem (control + 8), control_state_lem control),
  omega (arith, clear, control_generation_lem (control + 8), control_generation_lem control),
  ground (arith, clear, is_active_lem (control + 8)),
  omega (arith, clear),
)
  where
    clear : control / 8 % 2 ≡ 0
    clear = ground (arith, is_active_lem control)

-- Clearing the active bit changes nothing else.
pub clear_active_fields :
    (control : ℕ)
    → control < 2 ^ 32
    → (control_state (clear_active control) ≡ control_state control)
      × (control_generation (clear_active control) ≡ control_generation control)
      × (is_active (clear_active control) ≡ false)
      × (clear_active control < 2 ^ 32)
unfolding clear_active
clear_active_fields control h = rw (bit_and-not_eight control h) (
  omega (arith, control_state_lem cleared, control_state_lem control),
  omega (arith, control_generation_lem cleared, control_generation_lem control),
  ground (arith, is_active_lem cleared),
  omega arith,
)
  where
    cleared : ℕ
    cleared = control - control / 8 % 2 * 8

pub is_active-set_active : (control : ℕ) → is_active (set_active control) ≡ true
unfolding set_active
is_active-set_active control =
    ground (arith, is_active_lem (bit_or control 8), bit_or_eight_digit control)

-- Ending the operation that was started brings the word back.
pub clear_active-set_active :
    (control : ℕ)
    → control < 2 ^ 32
    → is_active control ≡ false
    → clear_active (set_active control) ≡ control
unfolding clear_active set_active
clear_active-set_active control h a =
    rw (bit_or_eight control clear, bit_and-not_eight (control + 8) (omega (arith, clear)))
      (omega (arith, clear))
  where
    clear : control / 8 % 2 ≡ 0
    clear = ground (arith, is_active_lem control)
