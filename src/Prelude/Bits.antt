-- ===== src/Prelude/Bits.antt =====
-- C's bit operations at variables, from the digit recursion that the native operations stand for.
use Prim.Native.Nat.{
  ℕ, zero, suc, ◌+◌, ◌*◌, ◌/◌, ◌%◌, ◌^◌, ◌≤◌, ◌<◌, min, max, bit_and, bit_or, digits,
  bit_and-bitwise, bit_or-bitwise, ◌-◌, bit_xor, bit_xor-bitwise, differ,
}
use mathlib.Core.Path.{◌≡◌, refl, ap, ap₂}
use native.Mathlib.Nat.{pow-suc, one-le-pow}
use native.Mathlib.Omega.{arith}

-- More fuel than the first operand does not change the digits.
module _ (rest : ℕ → ℕ) (digit : ℕ → ℕ → ℕ) where
  digits_enough : (f g x y : ℕ) → x ≤ f → x ≤ g → digits rest digit f x y ≡ digits rest digit g x y
  digits_enough zero zero zero y h k = refl
  digits_enough zero (suc g) zero y h k = refl
  digits_enough (suc f) zero zero y h k = refl
  digits_enough (suc f) (suc g) zero y h k = refl
  digits_enough zero g (suc x) y h k = absurd (omega arith)
  digits_enough (suc f) zero (suc x) y h k = absurd (omega arith)
  digits_enough (suc f) (suc g) (suc x) y h k =
      ap (λ (t : ℕ). t * 2 + digit (suc x % 2) (y % 2))
        (digits_enough f g (suc x / 2) (y / 2) (omega arith) (omega arith))

-- The lowest digit of `x | y`.
pub bit_or-digit : (x y : ℕ) → bit_or x y ≡ bit_or (x / 2) (y / 2) * 2 + max (x % 2) (y % 2)
bit_or-digit zero y = omega (arith, bit_or-bitwise zero y, bit_or-bitwise (zero / 2) (y / 2))
bit_or-digit (suc x) y = omega (
  arith,
  bit_or-bitwise (suc x) y,
  bit_or-bitwise (suc x / 2) (y / 2),
  digits_enough (λ b. b) max x (suc x / 2) (suc x / 2) (y / 2) (omega arith) (omega arith),
)

-- The lowest digit of `x & y`.
pub bit_and-digit : (x y : ℕ) → bit_and x y ≡ bit_and (x / 2) (y / 2) * 2 + min (x % 2) (y % 2)
bit_and-digit zero y = omega (arith, bit_and-bitwise zero y, bit_and-bitwise (zero / 2) (y / 2))
bit_and-digit (suc x) y = omega (
  arith,
  bit_and-bitwise (suc x) y,
  bit_and-bitwise (suc x / 2) (y / 2),
  digits_enough (λ b. zero) min x (suc x / 2) (suc x / 2) (y / 2) (omega arith) (omega arith),
)

-- The lowest digit of `x ^ y`.
pub bit_xor-differs : (x y : ℕ) → bit_xor x y ≡ bit_xor (x / 2) (y / 2) * 2 + differ (x % 2) (y % 2)
bit_xor-differs zero y = omega (arith, bit_xor-bitwise zero y, bit_xor-bitwise (zero / 2) (y / 2))
bit_xor-differs (suc x) y = omega (
  arith,
  bit_xor-bitwise (suc x) y,
  bit_xor-bitwise (suc x / 2) (y / 2),
  digits_enough (λ b. b) differ x (suc x / 2) (suc x / 2) (y / 2) (omega arith) (omega arith),
)

bit_or-zero_below : (f x : ℕ) → x ≤ f → bit_or x 0 ≡ x
bit_or-zero_below f zero h = refl
bit_or-zero_below zero (suc x) h = absurd (omega arith)
bit_or-zero_below (suc f) (suc x) h =
    omega (arith, bit_or-digit (suc x) 0, bit_or-zero_below f (suc x / 2) (omega arith))

pub bit_or-zero : (x : ℕ) → bit_or x 0 ≡ x
bit_or-zero x = bit_or-zero_below x x (omega arith)

bit_and-zero_below : (f x : ℕ) → x ≤ f → bit_and x 0 ≡ 0
bit_and-zero_below f zero h = refl
bit_and-zero_below zero (suc x) h = absurd (omega arith)
bit_and-zero_below (suc f) (suc x) h =
    omega (arith, bit_and-digit (suc x) 0, bit_and-zero_below f (suc x / 2) (omega arith))

pub bit_and-zero : (x : ℕ) → bit_and x 0 ≡ 0
bit_and-zero x = bit_and-zero_below x x (omega arith)

-- `(high << k) | low` is a sum where `low` has at most `k` bits.
pub bit_or-add : (k high low : ℕ) → low < 2 ^ k → bit_or (high * 2 ^ k) low ≡ high * 2 ^ k + low
bit_or-add zero high low h = omega (arith, same, bit_or-zero high)
  where
    same : bit_or (high * 2 ^ zero) low ≡ bit_or high 0
    same = ap₂ bit_or (omega arith) (omega arith)
bit_or-add (suc k) high low h = omega (
  arith,
  bit_or-digit (high * 2 ^ suc k) low,
  shifted,
  ap (λ (t : ℕ). bit_or t (low / 2)) halved,
  bit_or-add k high (low / 2) (omega (arith, pow-suc 2 k)),
)
  where
    shifted : high * 2 ^ suc k ≡ 2 * (high * 2 ^ k)
    shifted = omega (arith, ap (λ (t : ℕ). high * t) (pow-suc 2 k))

    halved : high * 2 ^ suc k / 2 ≡ high * 2 ^ k
    halved = omega (arith, shifted)

bit_or-zero_left : (f y : ℕ) → y ≤ f → bit_or 0 y ≡ y
bit_or-zero_left f zero h = refl
bit_or-zero_left zero (suc y) h = absurd (omega arith)
bit_or-zero_left (suc f) (suc y) h =
    omega (arith, bit_or-digit 0 (suc y), bit_or-zero_left f (suc y / 2) (omega arith))

bit_or-comm_below : (f x y : ℕ) → x ≤ f → bit_or x y ≡ bit_or y x
bit_or-comm_below f zero y h = omega (arith, bit_or-zero_left y y (omega arith), bit_or-zero y)
bit_or-comm_below zero (suc x) y h = absurd (omega arith)
bit_or-comm_below (suc f) (suc x) y h = omega (
  arith,
  bit_or-digit (suc x) y,
  bit_or-digit y (suc x),
  bit_or-comm_below f (suc x / 2) (y / 2) (omega arith),
)

pub bit_or_comm : (x y : ℕ) → bit_or x y ≡ bit_or y x
bit_or_comm x y = bit_or-comm_below x x y (omega arith)

-- The masks of the source.
pub bit_and-one : (x : ℕ) → bit_and x 1 ≡ x % 2
bit_and-one x = omega (arith, bit_and-digit x 1, bit_and-zero (x / 2))

pub bit_and_three : (x : ℕ) → bit_and x 3 ≡ x % 4
bit_and_three x = omega (arith, bit_and-digit x 3, bit_and-one (x / 2))

pub bit_and_seven : (x : ℕ) → bit_and x 7 ≡ x % 8
bit_and_seven x = omega (arith, bit_and-digit x 7, bit_and_three (x / 2))

pub bit_and_eight : (x : ℕ) → bit_and x 8 ≡ x / 8 % 2 * 8
bit_and_eight x = omega (
  arith,
  bit_and-digit x 8,
  bit_and-digit (x / 2) 4,
  bit_and-digit (x / 2 / 2) 2,
  bit_and-one (x / 2 / 2 / 2),
)

-- Setting the fourth bit of a word in which it is clear.
pub bit_or_eight : (x : ℕ) → x / 8 % 2 ≡ 0 → bit_or x 8 ≡ x + 8
bit_or_eight x h = omega (
  arith,
  bit_or-digit x 8,
  bit_or-digit (x / 2) 4,
  bit_or-digit (x / 2 / 2) 2,
  bit_or-digit (x / 2 / 2 / 2) 1,
  bit_or-zero (x / 2 / 2 / 2 / 2),
)

-- A mask of `k` ones keeps a number of `k` bits.
pub bit_and-ones : (k x : ℕ) → x < 2 ^ k → bit_and x (2 ^ k - 1) ≡ x
bit_and-ones zero x h = omega (arith, bit_and-zero x)
bit_and-ones (suc k) x h = omega (
  arith,
  bit_and-digit x (2 ^ suc k - 1),
  pow-suc 2 k,
  one-le-pow k 2 (omega arith),
  halved,
  bit_and-ones k (x / 2) (omega (arith, pow-suc 2 k)),
)
  where
    mask : (2 ^ suc k - 1) / 2 ≡ 2 ^ k - 1
    mask = omega (arith, pow-suc 2 k, one-le-pow k 2 (omega arith))

    halved : bit_and (x / 2) ((2 ^ suc k - 1) / 2) ≡ bit_and (x / 2) (2 ^ k - 1)
    halved = ap (bit_and (x / 2)) mask

-- Clearing the fourth bit of a 32-bit word.
pub bit_and-not_eight : (x : ℕ) → x < 2 ^ 32 → bit_and x (2 ^ 32 - 1 - 8) ≡ x - x / 8 % 2 * 8
bit_and-not_eight x h = omega (
  arith,
  bit_and-digit x (2 ^ 32 - 1 - 8),
  bit_and-digit (x / 2) (2 ^ 31 - 1 - 4),
  bit_and-digit (x / 2 / 2) (2 ^ 30 - 1 - 2),
  bit_and-digit (x / 2 / 2 / 2) (2 ^ 29 - 1 - 1),
  bit_and-ones 28 (x / 2 / 2 / 2 / 2) (omega arith),
)

-- The fourth bit after it has been set.
pub bit_or_eight_digit : (x : ℕ) → bit_or x 8 / 8 % 2 ≡ 1
bit_or_eight_digit x = omega (
  arith,
  bit_or-digit x 8,
  bit_or-digit (x / 2) 4,
  bit_or-digit (x / 2 / 2) 2,
  bit_or-digit (x / 2 / 2 / 2) 1,
)

pub differ_digits : (a b : ℕ) → a < 2 → b < 2 → differ a b < 2
differ_digits zero b h k = k
differ_digits (suc a) zero h k = h
differ_digits (suc a) (suc b) h k = differ_digits a b (omega arith) (omega arith)

pub bit_xor-lt : (s l k : ℕ) → l < 2 ^ s → k < 2 ^ s → bit_xor l k < 2 ^ s
bit_xor-lt zero l k h g = omega (arith, ap₂ bit_xor low high, nothing)
  where
    low : l ≡ 0
    low = omega (arith, h)

    high : k ≡ 0
    high = omega (arith, g)

    nothing : bit_xor 0 0 ≡ 0
    nothing = refl
bit_xor-lt (suc s) l k h g = omega (
  arith,
  bit_xor-differs l k,
  differ_digits (l % 2) (k % 2) (omega arith) (omega arith),
  bit_xor-lt s (l / 2) (k / 2) (omega (arith, h, pow-suc 2 s)) (omega (arith, g, pow-suc 2 s)),
  pow-suc 2 s,
)
