-- ===== src/Prelude/Fields.antt =====
-- Bit fields of a word: masks and shifts as arithmetic.
use native.Mathlib.Nat.{pow-suc, mul-div_cancel, mod-lt, div-add-mod'}
use air_dap.Prelude.Bits.{
  bit_and-digit, bit_or-digit, bit_or-add, bit_and-ones, bit_and-zero, bit_xor-differs,
}
use Prim.Native.Nat.{ℕ, zero, suc, ◌+◌, ◌-◌, ◌*◌, ◌/◌, ◌%◌, ◌^◌, ◌<◌, bit_and, bit_or}
use Prim.Native.Nat.{bit_xor, differ}
use mathlib.Core.Path.{◌≡◌, sym, ap, ap₂, ◌∙◌}
use native.Mathlib.Omega.{arith}

-- A word as a high part and `s` low bits.
pub double : (m s : ℕ) → m * 2 ^ suc s ≡ 2 * (m * 2 ^ s)
double m s = omega (arith, ap (λ (t : ℕ). m * t) (pow-suc 2 s))

pub halve : (m s l : ℕ) → (m * 2 ^ suc s + l) / 2 ≡ m * 2 ^ s + l / 2
halve m s l = omega (arith, double m s)

-- A mask that is zero on the low bits.
pub bit_and-high :
    (s m l k : ℕ) → l < 2 ^ s → bit_and (m * 2 ^ s + l) (k * 2 ^ s) ≡ bit_and m k * 2 ^ s
bit_and-high zero m l k h = ap₂ bit_and low high ∙ once
  where
    low : m * 2 ^ zero + l ≡ m
    low = omega (arith, h)

    high : k * 2 ^ zero ≡ k
    high = omega arith

    once : bit_and m k ≡ bit_and m k * 2 ^ zero
    once = omega arith
bit_and-high (suc s) m l k h = omega (
  arith,
  bit_and-digit (m * 2 ^ suc s + l) (k * 2 ^ suc s),
  ap₂ bit_and (halve m s l) (halved),
  bit_and-high s m (l / 2) k (omega (arith, h, pow-suc 2 s)),
  double k s,
  double (bit_and m k) s,
)
  where
    halved : k * 2 ^ suc s / 2 ≡ k * 2 ^ s
    halved = omega (arith, double k s)

-- A mask that is one on the low bits.
pub bit_and-low :
    (s m l k : ℕ)
    → l < 2 ^ s
    → bit_and (m * 2 ^ s + l) (k * 2 ^ s + (2 ^ s - 1)) ≡ bit_and m k * 2 ^ s + l
bit_and-low zero m l k h = ap₂ bit_and low high ∙ once
  where
    low : m * 2 ^ zero + l ≡ m
    low = omega (arith, h)

    high : k * 2 ^ zero + (2 ^ zero - 1) ≡ k
    high = omega arith

    once : bit_and m k ≡ bit_and m k * 2 ^ zero + l
    once = omega (arith, h)
bit_and-low (suc s) m l k h = omega (
  arith,
  bit_and-digit (m * 2 ^ suc s + l) (k * 2 ^ suc s + (2 ^ suc s - 1)),
  ap₂ bit_and (halve m s l) halved,
  bit_and-low s m (l / 2) k (omega (arith, h, pow-suc 2 s)),
  double k s,
  double m s,
  double (bit_and m k) s,
  pow-suc 2 s,
  h,
)
  where
    halved : (k * 2 ^ suc s + (2 ^ suc s - 1)) / 2 ≡ k * 2 ^ s + (2 ^ s - 1)
    halved = omega (arith, double k s, pow-suc 2 s, h)

pub bit_or-high :
    (s m l k : ℕ) → l < 2 ^ s → bit_or (m * 2 ^ s + l) (k * 2 ^ s) ≡ bit_or m k * 2 ^ s + l
bit_or-high zero m l k h = ap₂ bit_or low high ∙ once
  where
    low : m * 2 ^ zero + l ≡ m
    low = omega (arith, h)

    high : k * 2 ^ zero ≡ k
    high = omega arith

    once : bit_or m k ≡ bit_or m k * 2 ^ zero + l
    once = omega (arith, h)
bit_or-high (suc s) m l k h = omega (
  arith,
  bit_or-digit (m * 2 ^ suc s + l) (k * 2 ^ suc s),
  ap₂ bit_or (halve m s l) halved,
  bit_or-high s m (l / 2) k (omega (arith, h, pow-suc 2 s)),
  double k s,
  double m s,
  double (bit_or m k) s,
)
  where
    halved : k * 2 ^ suc s / 2 ≡ k * 2 ^ s
    halved = omega (arith, double k s)

pub bit_xor-high :
    (s m l k r : ℕ)
    → l < 2 ^ s
    → r < 2 ^ s
    → bit_xor (m * 2 ^ s + l) (k * 2 ^ s + r) ≡ bit_xor m k * 2 ^ s + bit_xor l r
bit_xor-high zero m l k r h g = ap₂ bit_xor first second ∙ once
  where
    no_left : l ≡ 0
    no_left = omega (arith, h)

    no_right : r ≡ 0
    no_right = omega (arith, g)

    first : m * 2 ^ zero + l ≡ m
    first = omega (arith, h)

    second : k * 2 ^ zero + r ≡ k
    second = omega (arith, g)

    nothing : bit_xor l r ≡ 0
    nothing = ap₂ bit_xor no_left no_right

    once : bit_xor m k ≡ bit_xor m k * 2 ^ zero + bit_xor l r
    once = omega (arith, nothing)
bit_xor-high (suc s) m l k r h g = omega (
  arith,
  bit_xor-differs (m * 2 ^ suc s + l) (k * 2 ^ suc s + r),
  ap₂ bit_xor (halve m s l) (halve k s r),
  bit_xor-high s m (l / 2) k (r / 2) (omega (arith, h, pow-suc 2 s))
      (omega (arith, g, pow-suc 2 s)),
  bit_xor-differs l r,
  ap₂ differ (lowest m l) (lowest k r),
  double (bit_xor m k) s,
)
  where
    lowest : (a b : ℕ) → (a * 2 ^ suc s + b) % 2 ≡ b % 2
    lowest a b = omega (arith, double a s)

-- A field `f` of `w` bits between `l` below and `h` above: reading, clearing and setting it.
module _ (w s h f l : ℕ) (small : f < 2 ^ w) (below : l < 2 ^ s) where
  pub bit_and-get : bit_and ((h * 2 ^ w + f) * 2 ^ s + l) ((2 ^ w - 1) * 2 ^ s) ≡ f * 2 ^ s
  bit_and-get =
      bit_and-high s (h * 2 ^ w + f) l (2 ^ w - 1) below ∙ ap (λ (t : ℕ). t * 2 ^ s) digits
    where
      ones : 0 * 2 ^ w + (2 ^ w - 1) ≡ 2 ^ w - 1
      ones = omega arith

      none_left : bit_and h 0 * 2 ^ w + f ≡ f
      none_left = ap (λ (t : ℕ). t * 2 ^ w + f) (bit_and-zero h) ∙ zeroed
        where
          zeroed : 0 * 2 ^ w + f ≡ f
          zeroed = omega arith

      digits : bit_and (h * 2 ^ w + f) (2 ^ w - 1) ≡ f
      digits = ap (bit_and (h * 2 ^ w + f)) (sym ones) ∙ bit_and-low w h f 0 small ∙ none_left

  pub bit_and-clear :
      (k : ℕ)
      → h < 2 ^ k
      → bit_and ((h * 2 ^ w + f) * 2 ^ s + l) ((2 ^ k - 1) * 2 ^ w * 2 ^ s + (2 ^ s - 1))
        ≡ h * 2 ^ w * 2 ^ s + l
  bit_and-clear k fits =
      bit_and-low s (h * 2 ^ w + f) l ((2 ^ k - 1) * 2 ^ w) below
      ∙ ap (λ (t : ℕ). t * 2 ^ s + l) (bit_and-high w h f (2 ^ k - 1) small)
      ∙ ap (λ (t : ℕ). t * 2 ^ w * 2 ^ s + l) (bit_and-ones k h fits)

  pub bit_or-set :
      (v : ℕ) → v < 2 ^ w → bit_or (h * 2 ^ w * 2 ^ s + l) (v * 2 ^ s) ≡ (h * 2 ^ w + v) * 2 ^ s + l
  bit_or-set v fits =
      bit_or-high s (h * 2 ^ w) l v below ∙ ap (λ (t : ℕ). t * 2 ^ s + l) (bit_or-add w h v fits)

  -- The shift down after reading.
  pub shift-get : bit_and ((h * 2 ^ w + f) * 2 ^ s + l) ((2 ^ w - 1) * 2 ^ s) / 2 ^ s ≡ f
  shift-get = ap (λ (t : ℕ). t / 2 ^ s) bit_and-get ∙ mul-div_cancel f (omega (arith, below))

-- Reduction by a mask of low ones.
pub bit_and-low_ones : (w x : ℕ) → 0 < 2 ^ w → bit_and x (2 ^ w - 1) ≡ x % 2 ^ w
bit_and-low_ones w x h =
    ap₂ bit_and split ones
    ∙ bit_and-low w (x / 2 ^ w) (x % 2 ^ w) 0 (mod-lt x h)
    ∙ ap (λ (t : ℕ). t * 2 ^ w + x % 2 ^ w) (bit_and-zero (x / 2 ^ w))
    ∙ rest
  where
    split : x ≡ x / 2 ^ w * 2 ^ w + x % 2 ^ w
    split = sym (div-add-mod' x (2 ^ w))

    ones : 2 ^ w - 1 ≡ 0 * 2 ^ w + (2 ^ w - 1)
    ones = omega arith

    rest : 0 * 2 ^ w + x % 2 ^ w ≡ x % 2 ^ w
    rest = omega arith
