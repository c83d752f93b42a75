-- ===== src/Bindings/Word.antt =====
-- The bindings word of firmware/components/button_config/button_config.c as numbers.
use air_dap.Bindings.{bound_bit, pack_from, pack_commands, is_bound, commands_from, gesture_count}
use air_dap.Prelude.Fields.{bit_and-get, bit_and-low_ones, bit_or-high}
use air_dap.Prelude.Bits.{bit_or-add}
use air_dap.Prelude.{
  ℕ, ◌+◌, ◌*◌, ◌/◌, ◌%◌, ◌^◌, ◌<◌, bit_and, bit_or, ◌≡◌, ap, ◌∙◌, not, ◌==◌, arith, true, [], ◌∷◌,
}

-- Four bits set above `l`, in a word whose bits there are zero.
or_nibble :
    (s h l k : ℕ)
    → l < 2 ^ s
    → k < 2 ^ 4
    → bit_or (h * 2 ^ 4 * 2 ^ s + l) (k * 2 ^ s) ≡ (h * 2 ^ 4 + k) * 2 ^ s + l
or_nibble s h l k below short =
    bit_or-high s (h * 2 ^ 4) l k below ∙ ap (λ (t : ℕ). t * 2 ^ s + l) (bit_or-add 4 h k short)

-- A command set at bit `s` of a word whose bits from there on are only the initialised bit.
set_command :
    (s h l k : ℕ)
    → l < 2 ^ s
    → k < 2 ^ 4
    → k * 2 ^ s < 2 ^ 32
    → bit_or (h * 2 ^ 4 * 2 ^ s + l) (k * 2 ^ s % 2 ^ 32) ≡ (h * 2 ^ 4 + k) * 2 ^ s + l
set_command s h l k below short whole =
    ap (bit_or (h * 2 ^ 4 * 2 ^ s + l)) kept ∙ or_nibble s h l k below short
  where
    kept : k * 2 ^ s % 2 ^ 32 ≡ k * 2 ^ s
    kept = omega (arith, whole)

-- Five commands of four bits.
module _ (a b c d e : ℕ) (ha : a < 16) (hb : b < 16) (hc : c < 16) (hd : d < 16) (he : e < 16) where
  abbrev word_of : ℕ
  word_of = 2 ^ 31 + a + b * 2 ^ 4 + c * 2 ^ 8 + d * 2 ^ 12 + e * 2 ^ 16

  step0 : bit_or (2 ^ 31) (a * 2 ^ 0 % 2 ^ 32) ≡ 2 ^ 31 + a
  step0 =
      ap (λ (t : ℕ). bit_or t (a * 2 ^ 0 % 2 ^ 32)) before
      ∙ set_command 0 (2 ^ 27) (0) a (omega (arith, ha, hb, hc, hd, he)) ha (omega (arith, ha))
      ∙ afterwards
    where
      before : 2 ^ 31 ≡ 2 ^ 27 * 2 ^ 4 * 2 ^ 0 + (0)
      before = omega arith

      afterwards : (2 ^ 27 * 2 ^ 4 + a) * 2 ^ 0 + (0) ≡ 2 ^ 31 + a
      afterwards = omega arith

  step1 : bit_or (2 ^ 31 + a) (b * 2 ^ 4 % 2 ^ 32) ≡ 2 ^ 31 + a + b * 2 ^ 4
  step1 =
      ap (λ (t : ℕ). bit_or t (b * 2 ^ 4 % 2 ^ 32)) before
      ∙ set_command 4 (2 ^ 23) (a) b (omega (arith, ha, hb, hc, hd, he)) hb (omega (arith, hb))
      ∙ afterwards
    where
      before : 2 ^ 31 + a ≡ 2 ^ 23 * 2 ^ 4 * 2 ^ 4 + (a)
      before = omega arith

      afterwards : (2 ^ 23 * 2 ^ 4 + b) * 2 ^ 4 + (a) ≡ 2 ^ 31 + a + b * 2 ^ 4
      afterwards = omega arith

  step2 : bit_or (2 ^ 31 + a + b * 2 ^ 4) (c * 2 ^ 8 % 2 ^ 32) ≡ 2 ^ 31 + a + b * 2 ^ 4 + c * 2 ^ 8
  step2 =
      ap (λ (t : ℕ). bit_or t (c * 2 ^ 8 % 2 ^ 32)) before
      ∙ set_command 8 (2 ^ 19) (a + b * 2 ^ 4) c (omega (arith, ha, hb, hc, hd, he)) hc
          (omega (arith, hc))
      ∙ afterwards
    where
      before : 2 ^ 31 + a + b * 2 ^ 4 ≡ 2 ^ 19 * 2 ^ 4 * 2 ^ 8 + (a + b * 2 ^ 4)
      before = omega arith

      afterwards :
          (2 ^ 19 * 2 ^ 4 + c) * 2 ^ 8 + (a + b * 2 ^ 4) ≡ 2 ^ 31 + a + b * 2 ^ 4 + c * 2 ^ 8
      afterwards = omega arith

  step3 :
      bit_or (2 ^ 31 + a + b * 2 ^ 4 + c * 2 ^ 8) (d * 2 ^ 12 % 2 ^ 32)
      ≡ 2 ^ 31 + a + b * 2 ^ 4 + c * 2 ^ 8 + d * 2 ^ 12
  step3 =
      ap (λ (t : ℕ). bit_or t (d * 2 ^ 12 % 2 ^ 32)) before
      ∙ set_command 12 (2 ^ 15) (a + b * 2 ^ 4 + c * 2 ^ 8) d (omega (arith, ha, hb, hc, hd, he)) hd
          (omega (arith, hd))
      ∙ afterwards
    where
      before :
          2 ^ 31 + a + b * 2 ^ 4 + c * 2 ^ 8 ≡ 2 ^ 15 * 2 ^ 4 * 2 ^ 12 + (a + b * 2 ^ 4 + c * 2 ^ 8)
      before = omega arith

      afterwards :
          (2 ^ 15 * 2 ^ 4 + d) * 2 ^ 12 + (a + b * 2 ^ 4 + c * 2 ^ 8)
          ≡ 2 ^ 31 + a + b * 2 ^ 4 + c * 2 ^ 8 + d * 2 ^ 12
      afterwards = omega arith

  step4 :
      bit_or (2 ^ 31 + a + b * 2 ^ 4 + c * 2 ^ 8 + d * 2 ^ 12) (e * 2 ^ 16 % 2 ^ 32)
      ≡ 2 ^ 31 + a + b * 2 ^ 4 + c * 2 ^ 8 + d * 2 ^ 12 + e * 2 ^ 16
  step4 =
      ap (λ (t : ℕ). bit_or t (e * 2 ^ 16 % 2 ^ 32)) before
      ∙ set_command 16 (2 ^ 11) (a + b * 2 ^ 4 + c * 2 ^ 8 + d * 2 ^ 12) e
          (omega (arith, ha, hb, hc, hd, he)) he (omega (arith, he))
      ∙ afterwards
    where
      before :
          2 ^ 31 + a + b * 2 ^ 4 + c * 2 ^ 8 + d * 2 ^ 12
          ≡ 2 ^ 11 * 2 ^ 4 * 2 ^ 16 + (a + b * 2 ^ 4 + c * 2 ^ 8 + d * 2 ^ 12)
      before = omega arith

      afterwards :
          (2 ^ 11 * 2 ^ 4 + e) * 2 ^ 16 + (a + b * 2 ^ 4 + c * 2 ^ 8 + d * 2 ^ 12)
          ≡ 2 ^ 31 + a + b * 2 ^ 4 + c * 2 ^ 8 + d * 2 ^ 12 + e * 2 ^ 16
      afterwards = omega arith

  pack_commands_lem : pack_commands (a ∷ b ∷ c ∷ d ∷ e ∷ []) ≡ word_of
  unfolding pack_commands pack_from
  pack_commands_lem =
      ap
        (λ (t : ℕ).
          bit_or
            (bit_or (bit_or (bit_or t (b * 2 ^ 4 % 2 ^ 32)) (c * 2 ^ 8 % 2 ^ 32))
              (d * 2 ^ 12 % 2 ^ 32))
            (e * 2 ^ 16 % 2 ^ 32))
        step0
      ∙ ap
          (λ (t : ℕ).
            bit_or (bit_or (bit_or t (c * 2 ^ 8 % 2 ^ 32)) (d * 2 ^ 12 % 2 ^ 32))
              (e * 2 ^ 16 % 2 ^ 32))
          step1
      ∙ ap (λ (t : ℕ). bit_or (bit_or t (d * 2 ^ 12 % 2 ^ 32)) (e * 2 ^ 16 % 2 ^ 32)) step2
      ∙ ap (λ (t : ℕ). bit_or t (e * 2 ^ 16 % 2 ^ 32)) step3
      ∙ step4

  read0 : bit_and (word_of / 2 ^ 0) 0xf ≡ a
  read0 = omega (arith, bit_and-low_ones 4 (word_of / 2 ^ 0) (omega arith), ha, hb, hc, hd, he)

  read1 : bit_and (word_of / 2 ^ 4) 0xf ≡ b
  read1 = omega (arith, bit_and-low_ones 4 (word_of / 2 ^ 4) (omega arith), ha, hb, hc, hd, he)

  read2 : bit_and (word_of / 2 ^ 8) 0xf ≡ c
  read2 = omega (arith, bit_and-low_ones 4 (word_of / 2 ^ 8) (omega arith), ha, hb, hc, hd, he)

  read3 : bit_and (word_of / 2 ^ 12) 0xf ≡ d
  read3 = omega (arith, bit_and-low_ones 4 (word_of / 2 ^ 12) (omega arith), ha, hb, hc, hd, he)

  read4 : bit_and (word_of / 2 ^ 16) 0xf ≡ e
  read4 = omega (arith, bit_and-low_ones 4 (word_of / 2 ^ 16) (omega arith), ha, hb, hc, hd, he)

  commands_from_lem : commands_from gesture_count 0 word_of ≡ a ∷ b ∷ c ∷ d ∷ e ∷ []
  unfolding commands_from
  commands_from_lem = λ i. read0 i ∷ read1 i ∷ read2 i ∷ read3 i ∷ read4 i ∷ []

  is_bound_lem : is_bound word_of ≡ true
  is_bound_lem =
      ap (λ (t : ℕ). not (t == 0))
        (ap (λ (t : ℕ). bit_and t bound_bit) split
          ∙ bit_and-get 1 31 0 1 (a + b * 2 ^ 4 + c * 2 ^ 8 + d * 2 ^ 12 + e * 2 ^ 16) (omega arith)
              (omega (arith, ha, hb, hc, hd, he)))
    where
      split :
          word_of ≡ (0 * 2 ^ 1 + 1) * 2 ^ 31 + (a + b * 2 ^ 4 + c * 2 ^ 8 + d * 2 ^ 12 + e * 2 ^ 16)
      split = omega arith

  pub packed :
      (is_bound (pack_commands (a ∷ b ∷ c ∷ d ∷ e ∷ [])) ≡ true)
      × (commands_from gesture_count 0 (pack_commands (a ∷ b ∷ c ∷ d ∷ e ∷ []))
          ≡ a ∷ b ∷ c ∷ d ∷ e ∷ [])
  packed = (
    ap is_bound pack_commands_lem ∙ is_bound_lem,
    ap (commands_from gesture_count 0) pack_commands_lem ∙ commands_from_lem,
  )
