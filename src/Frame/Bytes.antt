-- ===== src/Frame/Bytes.antt =====
-- The big-endian accessors of firmware/components/airdap_frame/airdap_frame.c.
use air_dap.Prelude.{
  ℕ, ◌+◌, ◌*◌, ◌/◌, ◌%◌, ◌^◌, ◌<◌, ◌≡◌, refl, ap₂, ◌∙◌, arith, bit_or, List, [], ◌∷◌, All, get_or,
  write_at,
}
use air_dap.Prelude.Bits.{bit_or-add}

-- Bytes hold eight bits.
abbrev pub IsBytes : List ℕ → Type 0
IsBytes = All (λ b. b < 2 ^ 8)

-- `data[i]`
abbrev byte : List ℕ → ℕ → ℕ
byte bytes i = get_or bytes i 0

-- `data` is a buffer and an offset into it.
unfoldable pub read_u16_be : List ℕ → ℕ → ℕ
read_u16_be bytes i = bit_or (byte bytes i * 2 ^ 8 % 2 ^ 16) (byte bytes (i + 1))

unfoldable pub read_u32_be : List ℕ → ℕ → ℕ
read_u32_be bytes i =
    bit_or
      (bit_or (bit_or (byte bytes i * 2 ^ 24 % 2 ^ 32) (byte bytes (i + 1) * 2 ^ 16 % 2 ^ 32))
        (byte bytes (i + 2) * 2 ^ 8 % 2 ^ 32))
      (byte bytes (i + 3))

-- The bytes that `write_u16_be` and `write_u32_be` store.
abbrev pub u16_be : ℕ → List ℕ
u16_be value = (value / 2 ^ 8 % 2 ^ 8) ∷ (value % 2 ^ 8) ∷ []

abbrev pub u32_be : ℕ → List ℕ
u32_be value =
    (value / 2 ^ 24 % 2 ^ 8)
    ∷ (value / 2 ^ 16 % 2 ^ 8)
    ∷ (value / 2 ^ 8 % 2 ^ 8)
    ∷ (value % 2 ^ 8)
    ∷ []

unfoldable pub write_u16_be : List ℕ → ℕ → ℕ → List ℕ
write_u16_be bytes i value = write_at i (u16_be value) bytes

unfoldable pub write_u32_be : List ℕ → ℕ → ℕ → List ℕ
write_u32_be bytes i value = write_at i (u32_be value) bytes

-- The accessors as sums.
pub join_u16 : (a b : ℕ) → a < 2 ^ 8 → b < 2 ^ 8 → bit_or (a * 2 ^ 8 % 2 ^ 16) b ≡ a * 2 ^ 8 + b
join_u16 a b ha hb = omega (arith, same, bit_or-add 8 a b hb)
  where
    same : bit_or (a * 2 ^ 8 % 2 ^ 16) b ≡ bit_or (a * 2 ^ 8) b
    same = ap₂ bit_or (omega arith) refl

pub join_u32 :
    (a b c d : ℕ)
    → a < 2 ^ 8
    → b < 2 ^ 8
    → c < 2 ^ 8
    → d < 2 ^ 8
    → bit_or (bit_or (bit_or (a * 2 ^ 24 % 2 ^ 32) (b * 2 ^ 16 % 2 ^ 32)) (c * 2 ^ 8 % 2 ^ 32)) d
      ≡ a * 2 ^ 24 + b * 2 ^ 16 + c * 2 ^ 8 + d
join_u32 a b c d ha hb hc hd = omega (arith, low, bit_or-add 8 ((a * 2 ^ 8 + b) * 2 ^ 8 + c) d hd)
  where
    first : bit_or (a * 2 ^ 24 % 2 ^ 32) (b * 2 ^ 16 % 2 ^ 32) ≡ (a * 2 ^ 8 + b) * 2 ^ 16
    first =
        ap₂ bit_or {x = a * 2 ^ 24 % 2 ^ 32} {y = a * 2 ^ 24} (omega arith) (omega arith)
        ∙ bit_or-add 24 a (b * 2 ^ 16) (omega arith)
        ∙ omega arith

    middle :
        bit_or (bit_or (a * 2 ^ 24 % 2 ^ 32) (b * 2 ^ 16 % 2 ^ 32)) (c * 2 ^ 8 % 2 ^ 32)
        ≡ ((a * 2 ^ 8 + b) * 2 ^ 8 + c) * 2 ^ 8
    middle =
        ap₂ bit_or first (omega arith)
        ∙ bit_or-add 16 (a * 2 ^ 8 + b) (c * 2 ^ 8) (omega arith)
        ∙ omega arith

    low :
        bit_or (bit_or (bit_or (a * 2 ^ 24 % 2 ^ 32) (b * 2 ^ 16 % 2 ^ 32)) (c * 2 ^ 8 % 2 ^ 32)) d
        ≡ bit_or (((a * 2 ^ 8 + b) * 2 ^ 8 + c) * 2 ^ 8) d
    low = ap₂ bit_or middle refl
