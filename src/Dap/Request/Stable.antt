-- ===== src/Dap/Request/Stable.antt =====
-- `airdap_dap_request_size` on a buffer that more bytes join.
use air_dap.Dap.{byte, read_u16, size_max, packet_size}
use air_dap.Dap.Request.{
  has_data, transfer_size, sequence_bytes, sequence_size, ota_write_size, swj_sequence_size,
  transfer_block_size, transfer_request_size, sequence_request_size, request_size_of, request_size,
}
use air_dap.Prelude.{
  ℕ, zero, suc, ◌+◌, ◌≤◌, ◌<◌, ◌≡◌, ◌≢◌, inl, inr, refl, arith, List, some, [], ◌∷◌, ◌++◌, length,
  length-append, Bool-cases, leb, ltb, if◌then◌else◌, ◌&&◌, ◌-◌, ◌==◌, bit_and, Bool, true, false,
  take,
}

-- The two buffers agree on the first `available` bytes.
abbrev pub Agree : List ℕ → List ℕ → ℕ → Type 0
Agree xs ys available = (i : ℕ) → i < available → byte ys i ≡ byte xs i

pub append-Agree : (xs ys : List ℕ) → Agree xs (xs ++ ys) (length xs)
append-Agree [] ys i h = absurd (omega arith)
append-Agree (x ∷ xs) ys zero h = refl
append-Agree (x ∷ xs) ys (suc i) h = append-Agree xs ys i (omega arith)

-- One round of a loop: what it answers from the rest's answer.
abbrev transfer_round : Bool → ℕ → ℕ → ℕ → ℕ
transfer_round entry available len rest =
    let len' = if entry then len + 1 + 4 else len + 1 in
    if leb available len
    then 0
    else if entry && ltb (size_max - 4) (len + 1)
    then size_max
    else if ltb packet_size len'
    then size_max
    else if ltb available len'
    then 0
    else rest

transfer_round-agree :
    (entry : Bool) (a b len p q : ℕ)
    → a ≤ b
    → (p ≢ 0 → q ≡ p)
    → transfer_round entry a len p ≢ 0
    → transfer_round entry b len q ≡ transfer_round entry a len p
transfer_round-agree true a b len p q more same h = ground (arith, same)
transfer_round-agree false a b len p q more same h = ground (arith, same)

abbrev sequence_round : Bool → ℕ → ℕ → ℕ → ℕ → ℕ
sequence_round output available len extra rest =
    let len' = if output then len + 1 + extra else len + 1 in
    if leb available len
    then 0
    else if output && ltb packet_size len'
    then size_max
    else if output && ltb available len'
    then 0
    else rest

sequence_round-agree :
    (output : Bool) (a b len extra p q : ℕ)
    → a ≤ b
    → (p ≢ 0 → q ≡ p)
    → sequence_round output a len extra p ≢ 0
    → sequence_round output b len extra q ≡ sequence_round output a len extra p
sequence_round-agree true a b len extra p q more same h = ground (arith, same)
sequence_round-agree false a b len extra p q more same h = ground (arith, same)

take-Agree : (n : ℕ) (xs : List ℕ) → Agree xs (take n xs) n
take-Agree zero xs i h = absurd (omega arith)
take-Agree (suc n) [] i h = refl
take-Agree (suc n) (x ∷ xs) zero h = refl
take-Agree (suc n) (x ∷ xs) (suc i) h = take-Agree n xs i (omega arith)

module _ (xs ys : List ℕ) (a b : ℕ) (agree : Agree xs ys a) (more : a ≤ b) where
  transfer_size-agree :
      (left len : ℕ)
      → transfer_size left xs a len ≢ 0
      → transfer_size left ys b len ≡ transfer_size left xs a len
  unfolding transfer_size
  transfer_size-agree zero len h = refl
  transfer_size-agree (suc left) len h = elim (Bool-cases (leb a len)) [
    | inl e ↦ absurd (h (beyond e))
    | inr e ↦
        let same = agree len (ground (arith, e)) in
        rw same (
          transfer_round-agree (has_data (byte xs len)) a b len _ _ more
            (transfer_size-agree left (next (has_data (byte xs len)))) h)
  ]
    where
      next : Bool → ℕ
      next entry = if entry then len + 1 + 4 else len + 1

      beyond : leb a len ≡ true → transfer_size (suc left) xs a len ≡ 0
      beyond e = rw e refl

  sequence_size-agree :
      (left len : ℕ)
      → sequence_size left xs a len ≢ 0
      → sequence_size left ys b len ≡ sequence_size left xs a len
  unfolding sequence_size
  sequence_size-agree zero len h = refl
  sequence_size-agree (suc left) len h = elim (Bool-cases (leb a len)) [
    | inl e ↦ absurd (h (beyond e))
    | inr e ↦
        let same = agree len (ground (arith, e)) in
        rw same (
          sequence_round-agree (output (byte xs len)) a b len (sequence_bytes (byte xs len)) _ _
            more (sequence_size-agree left (next (byte xs len))) h)
  ]
    where
      output : ℕ → Bool
      output info = bit_and info 0x80 == 0

      next : ℕ → ℕ
      next info = if output info then len + 1 + sequence_bytes info else len + 1

      beyond : leb a len ≡ true → sequence_size (suc left) xs a len ≡ 0
      beyond e = rw e refl

  read_u16-agree : (i : ℕ) → i + 1 < a → read_u16 ys i ≡ read_u16 xs i
  unfolding read_u16
  read_u16-agree i h = rw (agree i (omega arith)) (rw (agree (i + 1) h) refl)

  ota_write_size-agree : ota_write_size xs a ≢ 0 → ota_write_size ys b ≡ ota_write_size xs a
  unfolding ota_write_size
  ota_write_size-agree h = ground (arith, read_u16-agree 5)

  swj_sequence_size-agree :
      swj_sequence_size xs a ≢ 0 → swj_sequence_size ys b ≡ swj_sequence_size xs a
  unfolding swj_sequence_size
  swj_sequence_size-agree h = ground (arith, agree 1)

  transfer_block_size-agree :
      transfer_block_size xs a ≢ 0 → transfer_block_size ys b ≡ transfer_block_size xs a
  unfolding transfer_block_size
  transfer_block_size-agree h = ground (arith, read_u16-agree 2, agree 4)

  transfer_request_size-agree :
      transfer_request_size xs a ≢ 0 → transfer_request_size ys b ≡ transfer_request_size xs a
  unfolding transfer_request_size
  transfer_request_size-agree h = ground (arith, agree 2, transfer_size-agree (byte xs 2) 3)

  sequence_request_size-agree :
      sequence_request_size xs a ≢ 0 → sequence_request_size ys b ≡ sequence_request_size xs a
  unfolding sequence_request_size
  sequence_request_size-agree h = ground (arith, agree 1, sequence_size-agree (byte xs 1) 2)

  request_size_of-agree :
      0 < a → request_size_of xs a ≢ 0 → request_size_of ys b ≡ request_size_of xs a
  unfolding request_size_of
  request_size_of-agree given h = ground (
    arith,
    agree 0,
    ota_write_size-agree,
    swj_sequence_size-agree,
    transfer_block_size-agree,
    transfer_request_size-agree,
    sequence_request_size-agree,
  )

-- Once `airdap_dap_request_size` answers something other than 0 for the bytes at hand, bytes that
-- arrive behind them leave the answer as it is: a length that was taken stays right, and so does the
-- refusal SIZE_MAX.
pub request_size-append :
    (request more : List ℕ)
    → request_size (some request) (length request) ≢ 0
    → request_size (some (request ++ more)) (length (request ++ more))
      ≡ request_size (some request) (length request)
unfolding request_size
request_size-append request more h = ground (
  arith,
  length-append request more,
  request_size_of-agree request (request ++ more) (length request) (length (request ++ more))
      (append-Agree request more),
)

-- The answer depends on the given number of bytes only.
pub request_size-take :
    (request : List ℕ) (available : ℕ)
    → available ≤ length request
    → request_size (some request) available ≡ request_size (some (take available request)) available
unfolding request_size
request_size-take request available h = ground (
  arith,
  request_size_of-agree request (take available request) available available,
  request_size_of-agree (take available request) request available available,
  take-Agree available request,
)
