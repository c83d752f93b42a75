-- ===== src/Frame/Codec/RoundTrip.antt =====
-- Encoding a frame and decoding it again.
use air_dap.Frame.ErrorCode
use air_dap.Frame.{Header, HeaderFits, header_size, validate_fields, validate_header}
use air_dap.Frame.Codec.{
  DecodeStatus, DecodeOut, all_given, contents, decode_candidate, decode, encode_valid, encode,
  write_frame, read_header,
}
use air_dap.Frame.Codec.Writing.{header_bytes, write_frame_lem}
use air_dap.Frame.Bytes.{IsBytes}
use air_dap.Frame.Codec.Reading.{read_header-header_bytes, header_bytes-read_header}
use air_dap.Prelude.{
  ℕ, ◌+◌, ◌≤◌, ◌≡◌, refl, ap, ◌∙◌, arith, Option, some, true, List, ◌++◌, length, take, drop,
  length-drop, take-append_add, sym,
}

-- What a successful `airdap_frame_encode` returns.
pub encode_ok :
    (h : Header) (payload : Option (List ℕ)) (output : List ℕ) (capacity old : ℕ)
    → validate_fields h ≡ ErrorCode.none
    → h.payload_length ≤ length (contents payload)
    → header_size + h.payload_length ≤ capacity
    → encode (some h) payload (some output) capacity (some old) ≡ record {
      error = ErrorCode.none;
      output = some (write_frame h payload output);
      encoded_size = some (header_size + h.payload_length);
    }
unfolding encode encode_valid validate_header
encode_ok h payload output capacity old valid enough fits = ground arith

-- What `airdap_frame_decode` returns on bytes that begin with an acceptable header.
pub decode_ok :
    (h : Header) (rest : List ℕ) (input_size : ℕ) (out : DecodeOut)
    → validate_fields h ≡ ErrorCode.none
    → HeaderFits h
    → all_given out ≡ true
    → header_size + h.payload_length ≤ input_size
    → decode (some (header_bytes h ++ rest)) input_size out ≡ (
      DecodeStatus.ok,
      record {
        header = some h;
        payload = some (some rest);
        frame_size = some (header_size + h.payload_length);
        error_code = some ErrorCode.none;
      },
    )
unfolding decode decode_candidate validate_header
decode_ok h rest input_size out valid fits given enough =
    rw (given, read_header-header_bytes h rest fits) (ground arith)

-- An acceptable header with at least `payload_length` bytes of payload is encoded without error into
-- any buffer that holds the frame, with the frame's size reported, and decoding the buffer gives the
-- header back, with a payload pointer to the same `payload_length` bytes.
pub decode-encode :
    (h : Header) (payload : Option (List ℕ)) (output : List ℕ) (old : ℕ) (out : DecodeOut)
    → validate_fields h ≡ ErrorCode.none
    → HeaderFits h
    → h.payload_length ≤ length (contents payload)
    → header_size + h.payload_length ≤ length output
    → all_given out ≡ true
    → let r = encode (some h) payload (some output) (length output) (some old) in
      (r.error ≡ ErrorCode.none)
      × (r.encoded_size ≡ some (header_size + h.payload_length))
      × (decode r.output (length output) out ≡ (
        DecodeStatus.ok,
        record {
          header = some h;
          payload = some (
              some (
                take h.payload_length (contents payload)
                ++ drop (header_size + h.payload_length) output));
          frame_size = some (header_size + h.payload_length);
          error_code = some ErrorCode.none;
        },
      ))
decode-encode h payload output old out valid fits enough room given =
    rw (encode_ok h payload output (length output) old valid enough room) (
      refl,
      refl,
      rw (write_frame_lem h payload output room enough)
          (decode_ok h _ (length output) out valid fits given room),
    )

-- What decoding accepts: the outputs of a success come from the first bytes of the input.
pub decode_sound :
    (input : List ℕ) (input_size : ℕ) (out out' : DecodeOut)
    → decode (some input) input_size out ≡ (DecodeStatus.ok, out')
    → (validate_fields (read_header input) ≡ ErrorCode.none)
      × (header_size + (read_header input).payload_length ≤ input_size)
      × (out' ≡ record {
        header = some (read_header input);
        payload = some (some (drop header_size input));
        frame_size = some (header_size + (read_header input).payload_length);
        error_code = some ErrorCode.none;
      })
unfolding decode decode_candidate validate_header
decode_sound input input_size out out' e = ground arith

-- A successful decode loses nothing: encoding the header and the payload pointer that it returned
-- writes the bytes that were decoded to the start of any buffer with room for them.
pub encode-decode :
    (input buffer : List ℕ) (input_size : ℕ) (out out' : DecodeOut) (h : Header)
    (payload : Option (List ℕ))
    → IsBytes input
    → input_size ≤ length input
    → decode (some input) input_size out ≡ (DecodeStatus.ok, out')
    → out'.header ≡ some h
    → out'.payload ≡ some payload
    → header_size + h.payload_length ≤ length buffer
    → (encode (some h) payload (some buffer) (length buffer) (some 0)).output
      ≡ some (
          take (header_size + h.payload_length) input
          ++ drop (header_size + h.payload_length) buffer)
encode-decode input buffer input_size out out' h payload bytes readable e same pointed room =
    rw
      (
        is_rest,
        encode_ok h rest buffer (length buffer) 0 valid enough room,
        write_frame_lem h rest buffer room enough,
      )
      (ap (λ t. some (t ++ drop (header_size + h.payload_length) buffer)) wire)
  where
    rest : Option (List ℕ)
    rest = some (drop header_size input)

    sound :
        (validate_fields (read_header input) ≡ ErrorCode.none)
        × (header_size + (read_header input).payload_length ≤ input_size)
        × (out'.header ≡ some (read_header input))
        × (out'.payload ≡ some (some (drop header_size input)))
    sound = ground (arith, decode_sound input input_size out out' e)

    is_rest : payload ≡ rest
    is_rest = grind (arith, pointed, sound)

    is_read : h ≡ read_header input
    is_read = ground (arith, sound)

    valid : validate_fields h ≡ ErrorCode.none
    valid = rw is_read sound.0

    fits : header_size + h.payload_length ≤ input_size
    fits = rw is_read sound.1

    enough : h.payload_length ≤ length (contents rest)
    enough = omega (arith, length-drop header_size input, fits)

    joined : header_bytes h ++ drop header_size input ≡ input
    joined = rw is_read (header_bytes-read_header input bytes (omega (arith, fits)))

    wire :
        header_bytes h ++ take h.payload_length (drop header_size input)
        ≡ take (header_size + h.payload_length) input
    wire =
        sym (take-append_add (header_bytes h) (drop header_size input) h.payload_length)
        ∙ ap (take (header_size + h.payload_length)) joined
