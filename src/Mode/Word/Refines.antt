-- ===== src/Mode/Word/Refines.antt =====
-- The word operations and the state machine behind `next_control` of firmware/components/mode_state/mode_state.c, on the
-- fields of the mode word.
use air_dap.Mode.Word.Layout.{
  pack-lt, unpack-pack, unpack-Fits, pack-unpack, unpack, Modes, Fits, digit, digit-lt, pack,
}
use air_dap.Mode.Word.Shape.{above_shell, below_shell, shell_shape, shell_below}
use air_dap.Mode.Word.Access.{
  get_wifi_lem, get_provisioning_lem, get_ota_lem, set_wifi_lem, set_provisioning_lem, set_ota_lem,
  next_usb_ota_epoch_lem, next_wifi_epoch_lem, next_debug_shell_epoch_lem, set_usb_lem,
  clear_usb_lem, set_shell_lem, clear_shell_lem, digit_test,
}
use air_dap.Mode.Word.{bit_xor-bit}
use air_dap.Mode.{
  ModeEvent, usb_attached, usb_detached, wifi_stops, wifi_disconnects, wifi_connects,
  wifi_goes_online, provisioning_starts, provisioning_succeeds, provisioning_times_out,
  provisioning_resets, ota_starts, ota_aborts, ota_fails, ota_commits, ota_resets,
  debug_shell_starts, debug_shell_ends, unknown_event, ModeResult, fine, illegal_transition,
  next_control, shell_changed, test_bit, debug_shell_active, next_debug_shell_epoch,
  next_usb_ota_epoch, next_wifi_epoch, set_wifi, set_provisioning, set_ota, set_bit, clear_bit,
  get_wifi, get_provisioning, get_ota,
}
use Prim.Native.Nat.{differ}
use air_dap.Prelude.{
  ℕ, ◌*◌, ◌^◌, ◌<◌, bit_and, bit_xor, ◌≡◌, sym, refl, ap, ap₂, ◌∙◌, not, ◌==◌, arith, Bool, true,
  false, if◌then◌else◌,
}
use air_dap.Mode.Word.Machine.{
  with_wifi-Fits, with_provisioning-Fits, with_ota-Fits, mode_step-Fits, usb_ota_moves, wifi_moves,
  shell_moves, mode_step,
}

abbrev packed : ModeResult × Modes → ModeResult × ℕ
packed p = (p.0, pack p.1)

-- A guard that both sides have.
guarded :
    {b b' : Bool} {x y : ModeResult × ℕ} (x' y' : ModeResult × Modes)
    → b ≡ b'
    → x ≡ packed x'
    → y ≡ packed y'
    → (if b then x else y) ≡ packed (if b' then x' else y')
guarded {b' = b'} {x = x} {y = y} x' y' same first second =
    ap (λ (t : Bool). if t then x else y) same ∙ chosen b'
  where
    chosen : (c : Bool) → (if c then x else y) ≡ packed (if c then x' else y')
    chosen true = first
    chosen false = second

-- A guard that the code writes the other way round.
guarded_not :
    {b b' : Bool} {x y : ModeResult × ℕ} (x' y' : ModeResult × Modes)
    → b ≡ b'
    → x ≡ packed x'
    → y ≡ packed y'
    → (if not b then y else x) ≡ packed (if b' then x' else y')
guarded_not {b' = b'} {x = x} {y = y} x' y' same first second =
    ap (λ (t : Bool). if not t then y else x) same ∙ chosen b'
  where
    chosen : (c : Bool) → (if not c then y else x) ≡ packed (if c then x' else y')
    chosen true = first
    chosen false = second

-- Whether two bits differ.
abbrev differs : Bool → Bool → Bool
differs true b = not b
differs false b = b

differ-digit : (a b : Bool) → differ (digit a) (digit b) ≡ digit (differs a b)
differ-digit true true = refl
differ-digit true false = refl
differ-digit false true = refl
differ-digit false false = refl

-- The shell's bit in the exclusive or of two words.
module _ (v w : Modes) (ok : Fits v) (right : Fits w) where
  shell_bit : test_bit (bit_xor (pack v) (pack w)) debug_shell_active ≡ differs v.shell w.shell
  unfolding test_bit
  shell_bit =
      ap (λ (t : ℕ). not (t == 0))
        (ap₂ (λ (a b : ℕ). bit_and (bit_xor a b) debug_shell_active) (shell_shape v ok v.shell)
            (shell_shape w right w.shell)
          ∙ bit_xor-bit 24 (above_shell v) (digit v.shell) (below_shell v) (above_shell w)
              (digit w.shell) (below_shell w) (digit-lt v.shell) (digit-lt w.shell)
              (shell_below v ok) (shell_below w right)
          ∙ ap (λ (t : ℕ). t * 2 ^ 24) (differ-digit v.shell w.shell))
      ∙ digit_test 24 (differs v.shell w.shell) (omega arith)

  shell_changed_lem :
      shell_changed (pack v) (pack w)
      ≡ pack (if differs v.shell w.shell then shell_moves w w.shell else w)
  unfolding shell_changed
  shell_changed_lem =
      ap (λ (t : Bool). if t then next_debug_shell_epoch (pack w) else pack w) shell_bit
      ∙ chosen (differs v.shell w.shell)
    where
      chosen :
          (c : Bool)
          → (if c then next_debug_shell_epoch (pack w) else pack w)
            ≡ pack (if c then shell_moves w w.shell else w)
      chosen true = next_debug_shell_epoch_lem w right
      chosen false = refl

-- What the code's changes, an epoch's included, do to the fields.
moved_usb_ota :
    {c : ℕ} (w : Modes)
    → Fits w
    → c ≡ pack w
    → (fine, next_usb_ota_epoch c) ≡ packed (fine, usb_ota_moves w)
moved_usb_ota w right same =
    ap (λ (t : ℕ). (fine, t)) (ap next_usb_ota_epoch same ∙ next_usb_ota_epoch_lem w right)

differs_refl : (b : Bool) → differs b b ≡ false
differs_refl true = refl
differs_refl false = refl

module _ (v : Modes) (ok : Fits v) where
  moved_wifi :
      (x : ℕ)
      → x < 4
      → (fine, next_wifi_epoch (set_wifi (pack v) x)) ≡ packed (fine, wifi_moves v x)
  moved_wifi x h =
      ap (λ (t : ℕ). (fine, t))
        (ap next_wifi_epoch (set_wifi_lem v ok x h)
          ∙ next_wifi_epoch_lem (record v { wifi = x }) (with_wifi-Fits v ok x h))

  moved_provisioning :
      (x : ℕ)
      → x < 4
      → (fine, shell_changed (pack v) (set_provisioning (pack v) x))
        ≡ packed (fine, record v { provisioning = x })
  moved_provisioning x h =
      ap (λ (t : ℕ). (fine, t))
        (ap (shell_changed (pack v)) (set_provisioning_lem v ok x h)
          ∙ shell_changed_lem v w ok (with_provisioning-Fits v ok x h)
          ∙ ap (λ (t : Bool). pack (if t then shell_moves w w.shell else w)) (differs_refl v.shell))
    where
      w : Modes
      w = record v { provisioning = x }

  moved_ota :
      (x : ℕ)
      → x < 4
      → (fine, next_usb_ota_epoch (set_ota (pack v) x))
        ≡ packed (fine, usb_ota_moves (record v { ota = x }))
  moved_ota x h =
      moved_usb_ota (record v { ota = x }) (with_ota-Fits v ok x h) (set_ota_lem v ok x h)

  -- A bit set to the value that it has.
  same_shell : (b : Bool) → v.shell ≡ b → record v { shell = b } ≡ v
  same_shell b p = ap (λ (t : Bool). record v { shell = t }) (sym p)

  shell_started :
      (fine, shell_changed (pack v) (set_bit (pack v) debug_shell_active))
      ≡ packed (fine, if v.shell then v else shell_moves v true)
  shell_started =
      ap (λ (t : ℕ). (fine, t))
        (ap (shell_changed (pack v)) (set_shell_lem v ok)
          ∙ shell_changed_lem v (record v { shell = true }) ok ok
          ∙ ap pack (chosen v.shell refl))
    where
      chosen :
          (b : Bool)
          → v.shell ≡ b
          → (if differs b true then shell_moves v true else record v { shell = true })
            ≡ (if b then v else shell_moves v true)
      chosen true p = same_shell true p
      chosen false p = refl

  shell_ended :
      (fine, shell_changed (pack v) (clear_bit (pack v) debug_shell_active))
      ≡ packed (fine, if v.shell then shell_moves v false else v)
  shell_ended =
      ap (λ (t : ℕ). (fine, t))
        (ap (shell_changed (pack v)) (clear_shell_lem v ok)
          ∙ shell_changed_lem v (record v { shell = false }) ok ok
          ∙ ap pack (chosen v.shell refl))
    where
      chosen :
          (b : Bool)
          → v.shell ≡ b
          → (if differs b false then shell_moves v false else record v { shell = false })
            ≡ (if b then shell_moves v false else v)
      chosen true p = refl
      chosen false p = same_shell false p

  is_wifi : (x : ℕ) → (get_wifi (pack v) == x) ≡ (v.wifi == x)
  is_wifi x = ap (λ (t : ℕ). t == x) (get_wifi_lem v ok)

  is_provisioning : (x : ℕ) → (get_provisioning (pack v) == x) ≡ (v.provisioning == x)
  is_provisioning x = ap (λ (t : ℕ). t == x) (get_provisioning_lem v ok)

  is_ota : (x : ℕ) → (get_ota (pack v) == x) ≡ (v.ota == x)
  is_ota x = ap (λ (t : ℕ). t == x) (get_ota_lem v ok)

  -- `next_control`, on a word whose fields are `v`, is the state machine.
  pub next_control-pack :
      (e : ModeEvent) → next_control (pack v) e ≡ ((mode_step v e).0, pack (mode_step v e).1)
  unfolding next_control mode_step
  next_control-pack usb_attached = moved_usb_ota (record v { usb = true }) ok (set_usb_lem v ok)
  next_control-pack usb_detached = moved_usb_ota (record v { usb = false }) ok (clear_usb_lem v ok)
  next_control-pack debug_shell_starts = shell_started
  next_control-pack debug_shell_ends = shell_ended
  next_control-pack wifi_stops = moved_wifi 0 (omega arith)
  next_control-pack wifi_disconnects =
      guarded (illegal_transition, v) (fine, wifi_moves v 1) (is_wifi 0) refl
        (moved_wifi 1 (omega arith))
  next_control-pack wifi_connects = moved_wifi 2 (omega arith)
  next_control-pack wifi_goes_online =
      guarded_not (fine, wifi_moves v 3) (illegal_transition, v) (is_wifi 2)
        (moved_wifi 3 (omega arith)) refl
  next_control-pack provisioning_starts =
      guarded (illegal_transition, v) (fine, record v { provisioning = 1 }) (is_provisioning 1) refl
        (moved_provisioning 1 (omega arith))
  next_control-pack provisioning_succeeds =
      guarded_not (fine, record v { provisioning = 2 }) (illegal_transition, v) (is_provisioning 1)
        (moved_provisioning 2 (omega arith)) refl
  next_control-pack provisioning_times_out =
      guarded_not (fine, record v { provisioning = 3 }) (illegal_transition, v) (is_provisioning 1)
        (moved_provisioning 3 (omega arith)) refl
  next_control-pack provisioning_resets = moved_provisioning 0 (omega arith)
  next_control-pack ota_starts =
      guarded_not (fine, usb_ota_moves (record v { ota = 1 })) (illegal_transition, v) (is_ota 0)
        (moved_ota 1 (omega arith)) refl
  next_control-pack ota_aborts =
      guarded_not (fine, usb_ota_moves (record v { ota = 0 })) (illegal_transition, v) (is_ota 1)
        (moved_ota 0 (omega arith)) refl
  next_control-pack ota_fails =
      guarded_not (fine, usb_ota_moves (record v { ota = 0 })) (illegal_transition, v) (is_ota 1)
        (moved_ota 0 (omega arith)) refl
  next_control-pack ota_commits =
      guarded_not (fine, usb_ota_moves (record v { ota = 2 })) (illegal_transition, v) (is_ota 1)
        (moved_ota 2 (omega arith)) refl
  next_control-pack ota_resets = moved_ota 0 (omega arith)
  next_control-pack unknown_event = refl

-- For a 32-bit word and any event, the result of `next_control` is that of the state machine on the
-- word's fields; the word that it stores in `*next` has 32 bits, and its fields are those after the
-- machine's step, so that an event changes nothing but its own field and that field's epoch, and a
-- refused event changes nothing.
pub next_control-mode_step :
    (c : ℕ) (e : ModeEvent)
    → c < 2 ^ 32
    → ((next_control c e).0 ≡ (mode_step (unpack c) e).0)
      × (unpack (next_control c e).1 ≡ (mode_step (unpack c) e).1)
      × ((next_control c e).1 < 2 ^ 32)
next_control-mode_step c e h =
    (ap (λ p. p.0) moved, ap (λ p. unpack p.1) moved ∙ unpack-pack w fits, short)
  where
    v : Modes
    v = unpack c

    w : Modes
    w = (mode_step v e).1

    fits : Fits w
    fits = mode_step-Fits v (unpack-Fits c) e

    moved : next_control c e ≡ ((mode_step v e).0, pack w)
    moved =
        ap (λ (t : ℕ). next_control t e) (sym (pack-unpack c h))
        ∙ next_control-pack v (unpack-Fits c) e

    short : (next_control c e).1 < 2 ^ 32
    short = omega (arith, ap (λ p. p.1) moved, pack-lt w fits)
