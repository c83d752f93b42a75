-- ===== src/Mode/Stamp.antt =====
-- The policy stamp of firmware/components/mode_state/mode_state.c, by which a call sees that the policy
-- has changed between its two readings of the mode word.
pub mod Detects
use native.Mathlib.Nat.{div-div-eq-div-mul, pow-suc, div-one}
use air_dap.Ownership.Word.{owner_network}
use air_dap.Mode.Calls.Admission.{dap_policy_stamp, wired_mask, wireless_mask}
use air_dap.Mode.{
  ModeEvent, usb_attached, usb_detached, wifi_stops, wifi_disconnects, wifi_connects,
  wifi_goes_online, provisioning_starts, provisioning_succeeds, provisioning_times_out,
  provisioning_resets, ota_starts, ota_aborts, ota_fails, ota_commits, ota_resets,
  debug_shell_starts, debug_shell_ends, unknown_event, fine, next_control, next_usb_ota_epoch,
  replace_field, dap_route_mask, dap_route_shift, ModeResult, route_network,
}
use air_dap.Mode.Calls.{is_fine}
use air_dap.Mode.Word.Layout.{
  Modes, Fits, pack, unpack, pack-unpack, unpack-pack, unpack-Fits, pack-lt,
}
use air_dap.Mode.Word.Access.{set_route_lem, next_usb_ota_epoch_lem}
use air_dap.Mode.Word.Machine.{mode_step, with_route-Fits, with_usb_ota_epoch-Fits}
use air_dap.Mode.Word.Refines.{next_control-mode_step}
use air_dap.Prelude.Bits.{bit_and-digit, bit_or-digit, bit_and-zero}
use air_dap.Prelude.Fields.{bit_and-low, bit_and-high, bit_or-high}
use air_dap.Prelude.{
  ℕ, zero, suc, ◌+◌, ◌-◌, ◌*◌, ◌/◌, ◌%◌, ◌^◌, ◌<◌, bit_and, bit_or, ◌≡◌, sym, refl, ap, ap₂, ◌∙◌,
  Bool, true, false, List, [], ◌∷◌, ◌==◌, ◌&&◌, leb, arith, if◌then◌else◌,
}

bit_and-half : (x y : ℕ) → bit_and x y / 2 ≡ bit_and (x / 2) (y / 2)
bit_and-half x y = omega (arith, bit_and-digit x y)

half_again : (x s : ℕ) → x / 2 ^ suc s ≡ x / 2 / 2 ^ s
half_again x s = ap (λ (t : ℕ). x / t) (pow-suc 2 s ∙ flip) ∙ sym (div-div-eq-div-mul x 2 (2 ^ s))
  where
    flip : 2 ^ s * 2 ≡ 2 * 2 ^ s
    flip = omega arith

-- Shifting down before a mask or after it.
bit_and-shift : (s x y : ℕ) → bit_and x y / 2 ^ s ≡ bit_and (x / 2 ^ s) (y / 2 ^ s)
bit_and-shift zero x y = div-one (bit_and x y) ∙ ap₂ bit_and (sym (div-one x)) (sym (div-one y))
bit_and-shift (suc s) x y =
    half_again (bit_and x y) s
    ∙ ap (λ (t : ℕ). t / 2 ^ s) (bit_and-half x y)
    ∙ bit_and-shift s (x / 2) (y / 2)
    ∙ ap₂ bit_and (sym (half_again x s)) (sym (half_again y s))

bit_or-half : (x y : ℕ) → bit_or x y / 2 ≡ bit_or (x / 2) (y / 2)
bit_or-half x y = omega (arith, bit_or-digit x y)

bit_or-shift : (s x y : ℕ) → bit_or x y / 2 ^ s ≡ bit_or (x / 2 ^ s) (y / 2 ^ s)
bit_or-shift zero x y = div-one (bit_or x y) ∙ ap₂ bit_or (sym (div-one x)) (sym (div-one y))
bit_or-shift (suc s) x y =
    half_again (bit_or x y) s
    ∙ ap (λ (t : ℕ). t / 2 ^ s) (bit_or-half x y)
    ∙ bit_or-shift s (x / 2) (y / 2)
    ∙ ap₂ bit_or (sym (half_again x s)) (sym (half_again y s))

-- The word of both epochs that a stamp holds above the low byte.
wired_part :
    (c : ℕ)
    → bit_and c wired_mask / 2 ^ 8 ≡ bit_and (c / 2 ^ 8 / 2 ^ 8) 0xc000 * 2 ^ 8 + c / 2 ^ 8 % 2 ^ 8
wired_part c =
    bit_and-shift 8 c wired_mask
    ∙ ap (λ (t : ℕ). bit_and t (0xc000 * 2 ^ 8 + (2 ^ 8 - 1))) split
    ∙ bit_and-low 8 (c / 2 ^ 8 / 2 ^ 8) (c / 2 ^ 8 % 2 ^ 8) 0xc000 (omega arith)
  where
    split : c / 2 ^ 8 ≡ c / 2 ^ 8 / 2 ^ 8 * 2 ^ 8 + c / 2 ^ 8 % 2 ^ 8
    split = omega arith

wireless_part : (c : ℕ) → bit_and c wireless_mask / 2 ^ 8 ≡ bit_and (c / 2 ^ 8 / 2 ^ 8) 0xff * 2 ^ 8
wireless_part c =
    bit_and-shift 8 c wireless_mask
    ∙ ap (λ (t : ℕ). bit_and t (0xff * 2 ^ 8)) split
    ∙ bit_and-high 8 (c / 2 ^ 8 / 2 ^ 8) (c / 2 ^ 8 % 2 ^ 8) 0xff (omega arith)
  where
    split : c / 2 ^ 8 ≡ c / 2 ^ 8 / 2 ^ 8 * 2 ^ 8 + c / 2 ^ 8 % 2 ^ 8
    split = omega arith

-- Every stamp holds the epoch of USB, updates and routes.
pub stamp_epoch : (c owner : ℕ) → dap_policy_stamp c owner / 2 ^ 8 % 256 ≡ (unpack c).usb_ota_epoch
unfolding dap_policy_stamp unpack
stamp_epoch c owner = chosen (owner == owner_network)
  where
    wired : bit_and c wired_mask / 2 ^ 8 % 256 ≡ c / 2 ^ 8 % 256
    wired = omega (arith, wired_part c)

    both :
        bit_or (bit_and c wired_mask) (bit_and c wireless_mask) / 2 ^ 8
        ≡ bit_or (bit_and (c / 2 ^ 8 / 2 ^ 8) 0xc000) (bit_and (c / 2 ^ 8 / 2 ^ 8) 0xff) * 2 ^ 8
          + c / 2 ^ 8 % 2 ^ 8
    both =
        bit_or-shift 8 (bit_and c wired_mask) (bit_and c wireless_mask)
        ∙ ap₂ bit_or (wired_part c) (wireless_part c)
        ∙ bit_or-high 8 (bit_and (c / 2 ^ 8 / 2 ^ 8) 0xc000) (c / 2 ^ 8 % 2 ^ 8)
            (bit_and (c / 2 ^ 8 / 2 ^ 8) 0xff) (omega arith)

    chosen :
        (b : Bool)
        → (if b
              then bit_or (bit_and c wired_mask) (bit_and c wireless_mask)
              else bit_and c wired_mask)
            / 2 ^ 8
            % 256
          ≡ c / 2 ^ 8 % 256
    chosen true = omega (arith, both)
    chosen false = wired

-- What may happen to the mode word between two readings: an event, or the installation of a route.
pub data Move : Type 0 where
  by_event : ModeEvent → Move
  by_route : ℕ → Move

abbrev pub moved : ℕ → Move → ℕ
moved c (by_event e) = (next_control c e).1
moved c (by_route r) = next_usb_ota_epoch (replace_field c dap_route_mask dap_route_shift r)

abbrev pub is_wired : ModeEvent → Bool
is_wired usb_attached = true
is_wired usb_detached = true
is_wired ota_starts = true
is_wired ota_aborts = true
is_wired ota_fails = true
is_wired ota_commits = true
is_wired ota_resets = true
is_wired _ = false

-- Whether a move is an accepted USB or update event, or a route.
abbrev pub is_change : ℕ → Move → Bool
is_change c (by_event e) = is_wired e && is_fine (next_control c e).0
is_change c (by_route r) = true

abbrev pub is_move : Move → Bool
is_move (by_event e) = true
is_move (by_route r) = leb r route_network

unfoldable pub run : ℕ → List Move → ℕ
run c [] = c
run c (m ∷ ms) = run (moved c m) ms

unfoldable pub changes : ℕ → List Move → ℕ
changes c [] = 0
changes c (m ∷ ms) = (if is_change c m then 1 else 0) + changes (moved c m) ms
