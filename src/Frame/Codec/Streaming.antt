-- ===== src/Frame/Codec/Streaming.antt =====
-- Frames that arrive in pieces, and the failures of `airdap_frame_decode`.
use air_dap.Frame.ErrorCode
use air_dap.Frame.{Header, HeaderFits, header_size, validate_fields, validate_header}
use air_dap.Frame.Codec.{
  DecodeStatus, DecodeOut, all_given, contents, failed, decode_candidate, decode, read_header,
}
use air_dap.Frame.Codec.Writing.{header_bytes}
use air_dap.Frame.Codec.Reading.{read_header-header_bytes}
use air_dap.Prelude.{
  ℕ, ◌+◌, ◌-◌, ◌<◌, ◌≡◌, ◌≢◌, ap, ◌∙◌, arith, Option, none, some, false, true, List, ◌++◌, length,
  take, take-append_add, ltb, Bool-cases, inl, inr,
}

validate_fields-ne-truncated : (h : Header) → validate_fields h ≢ ErrorCode.truncated
unfolding validate_fields
validate_fields-ne-truncated h e = ground arith

-- The code that a caller reads.
abbrev code_of : DecodeOut → ℕ
code_of out = elim out.error_code [ none ↦ ErrorCode.none | some code ↦ code ]

-- With all output pointers given, a decode that does not succeed clears the header, the payload
-- pointer and the frame size and reports a code that is not `NONE`; and it asks for more data exactly
-- when this code is `TRUNCATED`.
pub decode_failure :
    (input : Option (List ℕ)) (input_size : ℕ) (out out' : DecodeOut) (s : DecodeStatus)
    → all_given out ≡ true
    → decode input input_size out ≡ (s, out')
    → s ≢ DecodeStatus.ok
    → (code : ℕ) × (out' ≡ failed code)
      × (code ≢ ErrorCode.none)
      × (s ≡ DecodeStatus.need_more_data → code ≡ ErrorCode.truncated)
      × (code ≡ ErrorCode.truncated → s ≡ DecodeStatus.need_more_data)
unfolding decode decode_candidate validate_header
decode_failure input input_size out out' s given e no_success =
    (code_of out', ground arith, ground arith, ground (arith, honest), ground (arith, honest))
  where
    honest : validate_fields (read_header (contents input)) ≢ ErrorCode.truncated
    honest = validate_fields-ne-truncated (read_header (contents input))

-- The first bytes of a frame, however few, ask for more data and are never called invalid.
pub decode-take :
    (h : Header) (payload : List ℕ) (k : ℕ) (out : DecodeOut)
    → validate_fields h ≡ ErrorCode.none
    → HeaderFits h
    → length payload ≡ h.payload_length
    → k < header_size + h.payload_length
    → all_given out ≡ true
    → decode (some (take k (header_bytes h ++ payload))) k out
      ≡ (DecodeStatus.need_more_data, failed ErrorCode.truncated)
unfolding decode decode_candidate validate_header
decode-take h payload k out valid fits same short given = elim (Bool-cases (ltb k header_size)) [
  | inl no_header ↦ rw (given, no_header)
  | inr header ↦
      rw
        (
          given,
          header,
          whole header,
          read_header-header_bytes h (take (k - header_size) payload) fits,
        )
        (ground arith)
]
  where
    whole :
        ltb k header_size ≡ false
        → take k (header_bytes h ++ payload) ≡ header_bytes h ++ take (k - header_size) payload
    whole e =
        ap (λ n. take n (header_bytes h ++ payload)) (split e)
        ∙ take-append_add (header_bytes h) payload (k - header_size)
      where
        split : ltb k header_size ≡ false → k ≡ header_size + (k - header_size)
        split e = ground arith
