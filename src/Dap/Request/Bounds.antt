-- ===== src/Dap/Request/Bounds.antt =====
-- The answers of `airdap_dap_request_size`.
use air_dap.Dap.{byte, size_max}
use air_dap.Dap.Request.{
  transfer_size, sequence_bytes, sequence_size, ota_write_size, swj_sequence_size,
  transfer_block_size, transfer_request_size, sequence_request_size, fixed_length, request_size_of,
  request_size,
}
use air_dap.Prelude.{
  ℕ, zero, suc, ◌+◌, ◌≤◌, ◌<◌, ◌≡◌, ◌⊎◌, inl, inr, refl, arith, List, Option, none, some,
}

abbrev pub IsAnswer : ℕ → ℕ → Type 0
IsAnswer available r = (r ≡ 0) ⊎ ((r ≡ size_max) ⊎ ((0 < r) × (r ≤ available)))

transfer_size-IsAnswer :
    (left : ℕ) (request : List ℕ) (available length : ℕ)
    → 0 < length
    → length ≤ available
    → IsAnswer available (transfer_size left request available length)
unfolding transfer_size
transfer_size-IsAnswer zero request available length pos fits = inr (inr (pos, fits))
transfer_size-IsAnswer (suc left) request available length pos fits = ground (
  arith,
  transfer_size-IsAnswer left request available (length + 1 + 4),
  transfer_size-IsAnswer left request available (length + 1),
)

sequence_size-IsAnswer :
    (left : ℕ) (request : List ℕ) (available length : ℕ)
    → 0 < length
    → length ≤ available
    → IsAnswer available (sequence_size left request available length)
unfolding sequence_size
sequence_size-IsAnswer zero request available length pos fits = inr (inr (pos, fits))
sequence_size-IsAnswer (suc left) request available length pos fits = ground (
  arith,
  sequence_size-IsAnswer left request available (length + 1 + sequence_bytes (byte request length)),
  sequence_size-IsAnswer left request available (length + 1),
)

fixed_length-pos : (command : ℕ) → 0 < fixed_length command
unfolding fixed_length
fixed_length-pos command = ground arith

request_size_of-IsAnswer :
    (request : List ℕ) (available : ℕ)
    → 0 < available
    → IsAnswer available (request_size_of request available)
unfolding request_size_of ota_write_size swj_sequence_size transfer_block_size transfer_request_size
    sequence_request_size
request_size_of-IsAnswer request available given = ground (
  arith,
  transfer_size-IsAnswer (byte request 2) request available 3,
  sequence_size-IsAnswer (byte request 1) request available 2,
  fixed_length-pos (byte request 0),
)

-- Whatever the bytes, `airdap_dap_request_size` answers 0, SIZE_MAX or a positive length that the given
-- bytes cover: a caller that takes such a length never reads past them.
pub request_size-IsAnswer :
    (request : Option (List ℕ)) (available : ℕ)
    → IsAnswer available (request_size request available)
unfolding request_size
request_size-IsAnswer none available = inl refl
request_size-IsAnswer (some request) available =
    ground (arith, request_size_of-IsAnswer request available)
