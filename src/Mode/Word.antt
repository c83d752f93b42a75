-- ===== src/Mode/Word.antt =====
-- The fields of the mode word as numbers: what the mask operations of
-- firmware/components/mode_state/mode_state.c do to them.
pub mod Layout
pub mod Shape
pub mod Access
pub mod Machine
pub mod Refines
use native.Mathlib.Nat.{mul-div_cancel}
use air_dap.Mode.{replace_field, field_value, increment_field, set_bit, clear_bit, test_bit}
use air_dap.Prelude.Fields.{
  bit_and-get, bit_and-clear, bit_or-set, shift-get, bit_and-low_ones, bit_or-high, bit_xor-high,
}
use air_dap.Prelude.Bits.{bit_or-digit, bit_or-zero, bit_xor-lt, bit_xor-differs, differ_digits}
use Prim.Native.Nat.{differ}
use air_dap.Prelude.{
  ℕ, suc, ◌+◌, ◌-◌, ◌*◌, ◌/◌, ◌%◌, ◌^◌, ◌<◌, bit_and, bit_or, bit_xor, ◌≡◌, sym, ap, ap₂, ◌∙◌, not,
  ◌==◌, arith,
}

-- A field `f` of `w` bits at bit `s`, below `k` bits of `h` and above `l`.
module _ (w s k h f l : ℕ) (small : f < 2 ^ w) (below : l < 2 ^ s) (fits : h < 2 ^ k)
    (complement : 2 ^ 32 - 1 - (2 ^ w - 1) * 2 ^ s
      ≡ (2 ^ k - 1) * 2 ^ w * 2 ^ s + (2 ^ s - 1)) where
  pub field_value_at : field_value ((h * 2 ^ w + f) * 2 ^ s + l) ((2 ^ w - 1) * 2 ^ s) s ≡ f
  unfolding field_value
  field_value_at = shift-get w s h f l small below

  pub clear_at :
      bit_and ((h * 2 ^ w + f) * 2 ^ s + l) (2 ^ 32 - 1 - (2 ^ w - 1) * 2 ^ s)
      ≡ h * 2 ^ w * 2 ^ s + l
  clear_at =
      ap (bit_and ((h * 2 ^ w + f) * 2 ^ s + l)) complement
      ∙ bit_and-clear w s h f l small below k fits

  pub replace_field_at :
      (v : ℕ)
      → v < 2 ^ w
      → v * 2 ^ s < 2 ^ 32
      → replace_field ((h * 2 ^ w + f) * 2 ^ s + l) ((2 ^ w - 1) * 2 ^ s) s v
        ≡ (h * 2 ^ w + v) * 2 ^ s + l
  unfolding replace_field
  replace_field_at v short whole =
      ap₂ bit_or clear_at kept ∙ bit_or-set w s h f l small below v short
    where
      kept : v * 2 ^ s % 2 ^ 32 ≡ v * 2 ^ s
      kept = omega (arith, whole)

  pub increment_field_at :
      0 < 2 ^ w
      → f + 1 < 2 ^ 32
      → (f + 1) % 2 ^ w < 2 ^ w
      → (f + 1) % 2 ^ w * 2 ^ s < 2 ^ 32
      → increment_field ((h * 2 ^ w + f) * 2 ^ s + l) ((2 ^ w - 1) * 2 ^ s) s
        ≡ (h * 2 ^ w + (f + 1) % 2 ^ w) * 2 ^ s + l
  unfolding increment_field
  increment_field_at some_bits short reduced whole =
      ap (replace_field ((h * 2 ^ w + f) * 2 ^ s + l) ((2 ^ w - 1) * 2 ^ s) s) incremented
      ∙ replace_field_at ((f + 1) % 2 ^ w) reduced whole
    where
      wrapped :
          (field_value ((h * 2 ^ w + f) * 2 ^ s + l) ((2 ^ w - 1) * 2 ^ s) s + 1) % 2 ^ 32 ≡ f + 1
      wrapped = omega (arith, field_value_at, short)

      incremented :
          bit_and
            ((field_value ((h * 2 ^ w + f) * 2 ^ s + l) ((2 ^ w - 1) * 2 ^ s) s + 1) % 2 ^ 32)
            ((2 ^ w - 1) * 2 ^ s / 2 ^ s)
          ≡ (f + 1) % 2 ^ w
      incremented =
          ap₂ bit_and wrapped (mul-div_cancel (2 ^ w - 1) (omega (arith, below)))
          ∙ bit_and-low_ones w (f + 1) some_bits

-- A single bit `f` at bit `s`.
module _ (s k h f l : ℕ) (small : f < 2) (below : l < 2 ^ s) (fits : h < 2 ^ k) where
  pub set_bit_at : set_bit ((h * 2 + f) * 2 ^ s + l) (1 * 2 ^ s) ≡ (h * 2 + 1) * 2 ^ s + l
  unfolding set_bit
  set_bit_at = bit_or-high s (h * 2 + f) l 1 below ∙ ap (λ (t : ℕ). t * 2 ^ s + l) lowest
    where
      half : bit_or ((h * 2 + f) / 2) 0 ≡ h
      half = omega (arith, bit_or-zero ((h * 2 + f) / 2), small)

      lowest : bit_or (h * 2 + f) 1 ≡ h * 2 + 1
      lowest = omega (arith, bit_or-digit (h * 2 + f) 1, half, small)

  pub clear_bit_at :
      2 ^ 32 - 1 - 1 * 2 ^ s ≡ (2 ^ k - 1) * 2 * 2 ^ s + (2 ^ s - 1)
      → clear_bit ((h * 2 + f) * 2 ^ s + l) (1 * 2 ^ s) ≡ (h * 2 + 0) * 2 ^ s + l
  unfolding clear_bit
  clear_bit_at complement =
      clear_at 1 s k h f l small below fits complement ∙ ap (λ (t : ℕ). t * 2 ^ s + l) none_left
    where
      none_left : h * 2 ≡ h * 2 + 0
      none_left = omega arith

  pub bit_and_bit : bit_and ((h * 2 + f) * 2 ^ s + l) (1 * 2 ^ s) ≡ f * 2 ^ s
  bit_and_bit = bit_and-get 1 s h f l small below

-- The bit at `s` of an exclusive or.
pub bit_xor-bit :
    (s h f l h' f' l' : ℕ)
    → f < 2
    → f' < 2
    → l < 2 ^ s
    → l' < 2 ^ s
    → bit_and (bit_xor ((h * 2 + f) * 2 ^ s + l) ((h' * 2 + f') * 2 ^ s + l')) (1 * 2 ^ s)
      ≡ differ f f' * 2 ^ s
bit_xor-bit s h f l h' f' l' small small' below below' =
    ap (λ (t : ℕ). bit_and t (1 * 2 ^ s))
      (bit_xor-high s (h * 2 + f) l (h' * 2 + f') l' below below' ∙ ap high lowest)
    ∙ bit_and-get 1 s (bit_xor h h') (differ f f') (bit_xor l l') one_digit
        (bit_xor-lt s l l' below below')
  where
    high : ℕ → ℕ
    high t = t * 2 ^ s + bit_xor l l'

    halved : (a b : ℕ) → b < 2 → (a * 2 + b) / 2 ≡ a
    halved a b k = omega (arith, k)

    digit : (a b : ℕ) → b < 2 → (a * 2 + b) % 2 ≡ b
    digit a b k = omega (arith, k)

    lowest : bit_xor (h * 2 + f) (h' * 2 + f') ≡ bit_xor h h' * 2 + differ f f'
    lowest =
        bit_xor-differs (h * 2 + f) (h' * 2 + f')
        ∙ ap₂ (λ (a b : ℕ). a * 2 + b) (ap₂ bit_xor (halved h f small) (halved h' f' small'))
            (ap₂ differ (digit h f small) (digit h' f' small'))

    one_digit : differ f f' < 2
    one_digit = differ_digits f f' small small'
