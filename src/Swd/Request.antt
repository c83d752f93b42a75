-- ===== src/Swd/Request.antt =====
-- The bits of a request and of a data phase.
use air_dap.Swd.{SwdRequest, ok}
use air_dap.Swd.Transfer.{
  encode_request, request_is_valid, parity32, parity_loop, send, receive, with_outputs,
}
use air_dap.Prelude.Bits.{bit_or-add, bit_and-one, bit_and_three, bit_or_comm}
use air_dap.Prelude.Fields.{double, halve}
use native.Mathlib.Nat.{pow-suc}
use air_dap.Prelude.{
  ℕ, zero, suc, ◌+◌, ◌*◌, ◌/◌, ◌%◌, ◌^◌, ◌<◌, ◌≡◌, refl, ap, ◌∙◌, arith, Bool, true, some, bit_and,
  bit_or, bit_xor, ◌==◌, ◌&&◌, subst,
}

-- What the target reads off the eight bits of a request.
pub record Asks (byte : ℕ) (request : SwdRequest) : Type 0 where
  pub start_stop_park : (byte % 2 ≡ 1) × (byte / 64 % 2 ≡ 0) × (byte / 128 ≡ 1)
  pub port_bit : byte / 2 % 2 ≡ request.port
  pub direction_bit : byte / 4 % 2 ≡ request.direction
  pub address_bits : byte / 8 % 4 * 4 ≡ request.address
  -- The four bits and their parity bit hold an even number of ones.
  pub even : (byte / 2 % 2 + byte / 4 % 2 + byte / 8 % 2 + byte / 16 % 2 + byte / 32 % 2) % 2 ≡ 0

abbrev asked : ℕ → ℕ → ℕ → SwdRequest
asked p d a = record { port = p; direction = d; address = a * 4 }

asks : ℕ → ℕ → ℕ → ℕ → Bool
asks byte p d a =
    byte % 2 == 1
    && byte / 64 % 2 == 0
    && byte / 128 == 1
    && byte / 2 % 2 == p
    && byte / 4 % 2 == d
    && byte / 8 % 4 == a
    && (byte / 2 % 2 + byte / 4 % 2 + byte / 8 % 2 + byte / 16 % 2 + byte / 32 % 2) % 2 == 0

-- The sixteen requests.
asks-all : (p d a : ℕ) → p < 2 → d < 2 → a < 4 → asks (encode_request (asked p d a)) p d a ≡ true
unfolding asks encode_request
asks-all zero zero zero hp hd ha = refl
asks-all zero zero (suc zero) hp hd ha = refl
asks-all zero zero (suc (suc zero)) hp hd ha = refl
asks-all zero zero (suc (suc (suc zero))) hp hd ha = refl
asks-all zero (suc zero) zero hp hd ha = refl
asks-all zero (suc zero) (suc zero) hp hd ha = refl
asks-all zero (suc zero) (suc (suc zero)) hp hd ha = refl
asks-all zero (suc zero) (suc (suc (suc zero))) hp hd ha = refl
asks-all (suc zero) zero zero hp hd ha = refl
asks-all (suc zero) zero (suc zero) hp hd ha = refl
asks-all (suc zero) zero (suc (suc zero)) hp hd ha = refl
asks-all (suc zero) zero (suc (suc (suc zero))) hp hd ha = refl
asks-all (suc zero) (suc zero) zero hp hd ha = refl
asks-all (suc zero) (suc zero) (suc zero) hp hd ha = refl
asks-all (suc zero) (suc zero) (suc (suc zero)) hp hd ha = refl
asks-all (suc zero) (suc zero) (suc (suc (suc zero))) hp hd ha = refl
asks-all (suc (suc p)) d a hp hd ha = absurd (omega (arith, hp))
asks-all zero (suc (suc d)) a hp hd ha = absurd (omega (arith, hd))
asks-all (suc zero) (suc (suc d)) a hp hd ha = absurd (omega (arith, hd))
asks-all zero zero (suc (suc (suc (suc a)))) hp hd ha = absurd (omega (arith, ha))
asks-all zero (suc zero) (suc (suc (suc (suc a)))) hp hd ha = absurd (omega (arith, ha))
asks-all (suc zero) zero (suc (suc (suc (suc a)))) hp hd ha = absurd (omega (arith, ha))
asks-all (suc zero) (suc zero) (suc (suc (suc (suc a)))) hp hd ha = absurd (omega (arith, ha))

asks-Asks : (byte p d a : ℕ) → asks byte p d a ≡ true → Asks byte (asked p d a)
unfolding asks
asks-Asks byte p d a h = ground arith

valid_parts :
    (request : SwdRequest)
    → request_is_valid (some request) ≡ true
    → (request.port < 2)
      × (request.direction < 2)
      × (request.address / 4 < 4)
      × (request.address / 4 * 4 ≡ request.address)
unfolding request_is_valid
valid_parts request h = ground (arith, bit_and_three request.address)

-- The byte that a valid request is encoded as has the start, stop and park bits in their places, gives
-- the target the port, the direction and the address back, and passes its parity check.
pub encode_request-Asks :
    (request : SwdRequest)
    → request_is_valid (some request) ≡ true
    → Asks (encode_request request) request
encode_request-Asks request h =
    let (p, d, a, e) = valid_parts request h in
    subst (λ (x : ℕ). Asks (encode_request (at x)) (at x)) e
      (asks-Asks _ request.port request.direction (request.address / 4)
        (asks-all request.port request.direction (request.address / 4) p d a))
  where
    at : ℕ → SwdRequest
    at x = record { port = request.port; direction = request.direction; address = x }

parity_step : (p b : ℕ) → p < 2 → b < 2 → bit_xor p b < 2
parity_step zero zero hp hb = omega arith
parity_step zero (suc zero) hp hb = omega arith
parity_step (suc zero) zero hp hb = omega arith
parity_step (suc zero) (suc zero) hp hb = omega arith
parity_step (suc (suc p)) b hp hb = absurd (omega (arith, hp))
parity_step zero (suc (suc b)) hp hb = absurd (omega (arith, hb))
parity_step (suc zero) (suc (suc b)) hp hb = absurd (omega (arith, hb))

parity_loop-lt : (fuel value p : ℕ) → p < 2 → parity_loop fuel value p < 2
unfolding parity_loop
parity_loop-lt zero value p h = h
parity_loop-lt (suc fuel) value p h =
    let bit : bit_and value 1 < 2 = omega (arith, bit_and-one value) in
    let rest =
      parity_loop-lt fuel (value / 2) (bit_xor p (bit_and value 1))
        (parity_step p (bit_and value 1) h bit) in
    ground (arith, rest)

parity32-lt : (value : ℕ) → parity32 value < 2
unfolding parity32
parity32-lt value = parity_loop-lt 32 value 0 (omega arith)

send_lem : (word : ℕ) → word < 2 ^ 32 → send word ≡ parity32 word * 2 ^ 32 + word
unfolding send
send_lem word h =
    ap (bit_or word) small
    ∙ bit_or_comm word (parity32 word * 2 ^ 32)
    ∙ bit_or-add 32 (parity32 word) word h
  where
    small : parity32 word * 2 ^ 32 % 2 ^ 64 ≡ parity32 word * 2 ^ 32
    small = omega (arith, parity32-lt word)

received_back :
    (word old ack : ℕ) → word < 2 ^ 32 → receive old ack (send word) ≡ with_outputs word ack ok
unfolding receive
received_back word old ack h = rw (send_lem word h) (rw (value, upper) (rw same refl))
  where
    same : (parity32 word == parity32 word) ≡ true
    same = ground arith

    value : (parity32 word * 2 ^ 32 + word) % 2 ^ 32 ≡ word
    value = omega arith

    upper : bit_and ((parity32 word * 2 ^ 32 + word) / 2 ^ 32) 1 ≡ parity32 word
    upper = omega (arith, bit_and-one ((parity32 word * 2 ^ 32 + word) / 2 ^ 32), parity32-lt word)

-- The ones among the lowest `n` bits.
unfoldable pub ones : ℕ → ℕ → ℕ
ones zero x = 0
ones (suc n) x = x % 2 + ones n (x / 2)

parity_sum : (p b : ℕ) → p < 2 → b < 2 → bit_xor p b ≡ (p + b) % 2
parity_sum zero zero hp hb = refl
parity_sum zero (suc zero) hp hb = refl
parity_sum (suc zero) zero hp hb = refl
parity_sum (suc zero) (suc zero) hp hb = refl
parity_sum (suc (suc p)) b hp hb = absurd (omega (arith, hp))
parity_sum zero (suc (suc b)) hp hb = absurd (omega (arith, hb))
parity_sum (suc zero) (suc (suc b)) hp hb = absurd (omega (arith, hb))

-- The code leaves its loop early, once no bit is left.
ones_zero : (n : ℕ) → ones n 0 ≡ 0
unfolding ones
ones_zero zero = refl
ones_zero (suc n) = omega (arith, ones_zero n)

parity_loop-ones : (fuel value p : ℕ) → p < 2 → parity_loop fuel value p ≡ (p + ones fuel value) % 2
unfolding parity_loop ones
parity_loop-ones zero value p h = omega arith
parity_loop-ones (suc fuel) value p h =
    let low : bit_and value 1 ≡ value % 2 = bit_and-one value in
    let sum : bit_xor p (bit_and value 1) ≡ (p + bit_and value 1) % 2 =
      parity_sum p (bit_and value 1) h (omega (arith, low)) in
    let rest =
      parity_loop-ones fuel (value / 2) (bit_xor p (bit_and value 1)) (omega (arith, sum)) in
    ground (arith, low, sum, rest, ones_zero (suc fuel))

parity32-ones : (value : ℕ) → parity32 value ≡ ones 32 value % 2
unfolding parity32
parity32-ones value = omega (arith, parity_loop-ones 32 value 0 (omega arith))

ones-suc : (n x : ℕ) → ones (suc n) x ≡ x % 2 + ones n (x / 2)
unfolding ones
ones-suc n x = refl

ones_front : (p w : ℕ) → p < 2 → w < 1 → ones 1 (p * 2 ^ 0 + w) ≡ ones 0 w + p
unfolding ones
ones_front p w hp hw = omega (arith, hp, hw)

-- The ones of a number below `2 ^ n` with a bit put in front of it.
ones_split : (n p w : ℕ) → p < 2 → w < 2 ^ n → ones (suc n) (p * 2 ^ n + w) ≡ ones n w + p
ones_split zero p w hp hw = ones_front p w hp (omega (arith, hw))
ones_split (suc n) p w hp hw = omega (
  arith,
  ones-suc (suc n) (p * 2 ^ suc n + w),
  double p n,
  ap (ones (suc n)) (halve p n w),
  ones_split n p (w / 2) hp (omega (arith, hw, pow-suc 2 n)),
  ones-suc n w,
)

-- The 33 data bits that a write sends are the word and above it a bit that makes their number of ones
-- even, as the target checks; and when they come in as the data bits of a read, they are accepted and
-- give the word.
pub receive-send :
    (word old ack : ℕ)
    → word < 2 ^ 32
    → (send word < 2 ^ 33)
      × (send word % 2 ^ 32 ≡ word)
      × (ones 33 (send word) % 2 ≡ 0)
      × (receive old ack (send word) ≡ with_outputs word ack ok)
receive-send word old ack h = (
  omega (arith, send_lem word h, parity32-lt word),
  omega (arith, send_lem word h, parity32-lt word),
  rw (send_lem word h)
      (omega (arith, ones_split 32 (parity32 word) word (parity32-lt word) h, counted)),
  received_back word old ack h,
)
  where
    counted : parity32 word ≡ ones 32 word % 2
    counted = parity32-ones word
