-- ===== src/Frame/Codec/Writing.antt =====
-- What `airdap_frame_encode` leaves in the output buffer.
use air_dap.Frame.{Header, header_size}
use air_dap.Frame.Bytes.{u16_be, u32_be, write_u16_be, write_u32_be}
use air_dap.Frame.Codec.{contents, write_header, write_frame}
use air_dap.Prelude.{
  ℕ, ◌+◌, ◌≤◌, ◌≡◌, ap, ◌∙◌, inl, inr, arith, Option, false, List, [], ◌∷◌, ◌++◌, length, take,
  drop, write_at, write_at-append, drop-drop, length-drop, length-take, ltb, Bool-cases,
}

-- The twenty bytes of a header on the wire.
abbrev pub header_bytes : Header → List ℕ
header_bytes h =
    u32_be h.magic
    ++ (h.version ∷ h.typ ∷ u16_be h.flags
        ++ (u32_be h.session_id
            ++ (u32_be h.sequence ++ (u16_be h.payload_length ++ u16_be h.reserved))))

-- A write at an offset of which the prefix is settled.
write_at-drop :
    (offset : ℕ) (bs output : List ℕ)
    → offset + length bs ≤ length output
    → write_at 0 bs (drop offset output) ≡ bs ++ drop (offset + length bs) output
write_at-drop offset bs output h =
    write_at-append [] bs (drop offset output) (omega (arith, length-drop offset output))
    ∙ ap (λ t. bs ++ t) (drop-drop offset (length bs) output)

pub write_header_lem :
    (h : Header) (output : List ℕ)
    → header_size ≤ length output
    → write_header h output ≡ header_bytes h ++ drop header_size output
unfolding write_header write_u16_be write_u32_be
write_header_lem h output fits = rw (
  write_at-drop 0 (u32_be h.magic) output (omega arith),
  write_at-drop 4 (h.version ∷ []) output (omega arith),
  write_at-drop 5 (h.typ ∷ []) output (omega arith),
  write_at-drop 6 (u16_be h.flags) output (omega arith),
  write_at-drop 8 (u32_be h.session_id) output (omega arith),
  write_at-drop 12 (u32_be h.sequence) output (omega arith),
  write_at-drop 16 (u16_be h.payload_length) output (omega arith),
  write_at-drop 18 (u16_be h.reserved) output (omega arith),
)

pub write_frame_lem :
    (h : Header) (payload : Option (List ℕ)) (output : List ℕ)
    → header_size + h.payload_length ≤ length output
    → h.payload_length ≤ length (contents payload)
    → write_frame h payload output
      ≡ header_bytes h
        ++ (take h.payload_length (contents payload)
            ++ drop (header_size + h.payload_length) output)
unfolding write_frame
write_frame_lem h payload output fits enough = elim (Bool-cases (ltb 0 h.payload_length)) [
  | inl given ↦
      rw (given, write_header_lem h output (omega arith)) (ap (λ t. header_bytes h ++ t) copied)
  | inr absent ↦
      rw (absent, write_header_lem h output (omega arith))
        (ap (λ t. header_bytes h ++ (take t bytes ++ drop (header_size + t) output))
          (not-pos absent))
]
  where
    bytes : List ℕ
    bytes = contents payload

    copied_length : length (take h.payload_length bytes) ≡ h.payload_length
    copied_length = length-take h.payload_length bytes enough

    copied :
        write_at 0 (take h.payload_length bytes) (drop header_size output)
        ≡ take h.payload_length bytes ++ drop (header_size + h.payload_length) output
    copied =
        write_at-drop header_size (take h.payload_length bytes) output
          (omega (arith, copied_length))
        ∙ ap (λ t. take h.payload_length bytes ++ drop (header_size + t) output) copied_length

    not-pos : ltb 0 h.payload_length ≡ false → 0 ≡ h.payload_length
    not-pos e = ground arith
