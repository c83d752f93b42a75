-- ===== src/Frame/Codec/Reading.antt =====
-- What `airdap_frame_decode` reads from the first twenty bytes.
use air_dap.Frame.{Header, HeaderFits}
use air_dap.Frame.Bytes.{IsBytes, u16_be, u32_be, read_u16_be, read_u32_be, join_u16, join_u32}
use air_dap.Frame.Codec.{read_header}
use air_dap.Frame.Codec.Writing.{header_bytes}
use air_dap.Prelude.{
  ℕ, ◌+◌, ◌*◌, ◌/◌, ◌%◌, ◌^◌, ◌≤◌, ◌<◌, ◌≡◌, arith, List, [], ◌∷◌, ◌++◌, length, drop, bit_or,
}

-- A header that fits its fields is read back from its bytes, whatever follows them.
pub read_header-header_bytes :
    (h : Header) (rest : List ℕ) → HeaderFits h → read_header (header_bytes h ++ rest) ≡ h
unfolding read_header read_u16_be read_u32_be
read_header-header_bytes h rest f = λ i. record {
  magic = u32 h.magic f.magic_u32 i;
  version = h.version;
  typ = h.typ;
  flags = u16 h.flags f.flags_u16 i;
  session_id = u32 h.session_id f.session_id_u32 i;
  sequence = u32 h.sequence f.sequence_u32 i;
  payload_length = u16 h.payload_length f.payload_length_u16 i;
  reserved = u16 h.reserved f.reserved_u16 i;
}
  where
    u16 : (v : ℕ) → v < 2 ^ 16 → bit_or (v / 2 ^ 8 % 2 ^ 8 * 2 ^ 8 % 2 ^ 16) (v % 2 ^ 8) ≡ v
    u16 v h = omega (arith, join_u16 (v / 2 ^ 8 % 2 ^ 8) (v % 2 ^ 8) (omega arith) (omega arith))

    u32 :
        (v : ℕ)
        → v < 2 ^ 32
        → bit_or
            (bit_or
              (bit_or (v / 2 ^ 24 % 2 ^ 8 * 2 ^ 24 % 2 ^ 32) (v / 2 ^ 16 % 2 ^ 8 * 2 ^ 16 % 2 ^ 32))
              (v / 2 ^ 8 % 2 ^ 8 * 2 ^ 8 % 2 ^ 32))
            (v % 2 ^ 8)
          ≡ v
    u32 v h = omega (
      arith,
      join_u32 (v / 2 ^ 24 % 2 ^ 8) (v / 2 ^ 16 % 2 ^ 8) (v / 2 ^ 8 % 2 ^ 8) (v % 2 ^ 8)
          (omega arith) (omega arith) (omega arith) (omega arith),
    )

-- Splitting what was joined gives the bytes back.
u16_be-join :
    (a b : ℕ) → a < 2 ^ 8 → b < 2 ^ 8 → u16_be (bit_or (a * 2 ^ 8 % 2 ^ 16) b) ≡ a ∷ b ∷ []
u16_be-join a b ha hb = λ i. first i ∷ second i ∷ []
  where
    first : bit_or (a * 2 ^ 8 % 2 ^ 16) b / 2 ^ 8 % 2 ^ 8 ≡ a
    first = omega (arith, join_u16 a b ha hb)

    second : bit_or (a * 2 ^ 8 % 2 ^ 16) b % 2 ^ 8 ≡ b
    second = omega (arith, join_u16 a b ha hb)

u32_be-join :
    (a b c d : ℕ)
    → a < 2 ^ 8
    → b < 2 ^ 8
    → c < 2 ^ 8
    → d < 2 ^ 8
    → u32_be (
        bit_or (bit_or (bit_or (a * 2 ^ 24 % 2 ^ 32) (b * 2 ^ 16 % 2 ^ 32)) (c * 2 ^ 8 % 2 ^ 32)) d)
      ≡ a ∷ b ∷ c ∷ d ∷ []
u32_be-join a b c d ha hb hc hd =
    rw (join_u32 a b c d ha hb hc hd) (λ i. e0 i ∷ e1 i ∷ e2 i ∷ e3 i ∷ [])
  where
    value : ℕ
    value = a * 2 ^ 24 + b * 2 ^ 16 + c * 2 ^ 8 + d

    e0 : value / 2 ^ 24 % 2 ^ 8 ≡ a
    e0 = omega arith

    e1 : value / 2 ^ 16 % 2 ^ 8 ≡ b
    e1 = omega arith

    e2 : value / 2 ^ 8 % 2 ^ 8 ≡ c
    e2 = omega arith

    e3 : value % 2 ^ 8 ≡ d
    e3 = omega arith

-- The header that is read from twenty bytes has these bytes on the wire.
pub header_bytes-read_header :
    (input : List ℕ)
    → IsBytes input
    → 20 ≤ length input
    → header_bytes (read_header input) ++ drop 20 input ≡ input
unfolding read_header read_u16_be read_u32_be
header_bytes-read_header
      (a ∷ b ∷ c ∷ d ∷ e ∷ f ∷ g ∷ h ∷ i ∷ j ∷ k ∷ l ∷ m ∷ n ∷ o ∷ p ∷ q ∷ r ∷ s ∷ t ∷ rest) bytes
      enough =
    λ z.
      u32_be-join a b c d (omega arith) (omega arith) (omega arith) (omega arith) z
      ++ (e ∷ f ∷ u16_be-join g h (omega arith) (omega arith) z
          ++ (u32_be-join i j k l (omega arith) (omega arith) (omega arith) (omega arith) z
              ++ (u32_be-join m n o p (omega arith) (omega arith) (omega arith) (omega arith) z
                  ++ (u16_be-join q r (omega arith) (omega arith) z
                      ++ (u16_be-join s t (omega arith) (omega arith) z ++ rest)))))
header_bytes-read_header _ bytes enough = absurd (omega arith)
