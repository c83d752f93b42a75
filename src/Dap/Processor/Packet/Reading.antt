-- ===== src/Dap/Processor/Packet/Reading.antt =====
-- What SWD_SEQUENCE asks of the backend's `read_sequence`.
use air_dap.Dap.Processor.{Backend}
use air_dap.Dap.Processor.Sequence.{read_bits_of}
use air_dap.Prelude.{
  ℕ, ◌+◌, ◌/◌, ◌≤◌, ◌≡◌, refl, arith, Bool, true, false, Option, none, some, List, [], length,
}

module _ {S : Type 0} (backend : Backend S) where
  -- What is asked of `read_sequence`, which another file implements: the bytes it writes hold no more
  -- than the bits it is asked for.
  abbrev pub ReadSafe : Type 0
  ReadSafe =
      (f : ℕ → S → Bool × List ℕ × S)
      → backend.read_sequence ≡ some f
      → (bit_count : ℕ) (s : S) → length (f bit_count s).1 ≤ (bit_count + 7) / 8

  read_called :
      (r : Option (ℕ → S → Bool × List ℕ × S)) (bit_count : ℕ) (s : S)
      → ((f : ℕ → S → Bool × List ℕ × S)
          → r ≡ some f
          → length (f bit_count s).1 ≤ (bit_count + 7) / 8)
      → length
          (elim r as (λ _. Bool × List ℕ × S) [ none ↦ (false, [], s) | some f ↦ f bit_count s ]).1
        ≤ (bit_count + 7) / 8
  read_called none bit_count s h = omega arith
  read_called (some f) bit_count s h = h f refl

  pub read_bits_of-length :
      (on : Bool) (bit_count : ℕ) (s : S)
      → ReadSafe
      → length (read_bits_of backend on bit_count s).1 ≤ (bit_count + 7) / 8
  unfolding read_bits_of
  read_bits_of-length false bit_count s h = omega arith
  read_bits_of-length true bit_count s h =
      read_called backend.read_sequence bit_count s (λ f e. h f e bit_count s)
