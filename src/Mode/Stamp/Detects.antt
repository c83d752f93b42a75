-- ===== src/Mode/Stamp/Detects.antt =====
-- What the policy stamp of firmware/components/mode_state/mode_state.c detects.
use air_dap.Mode.{
  ModeEvent, usb_attached, usb_detached, wifi_stops, wifi_disconnects, wifi_connects,
  wifi_goes_online, provisioning_starts, provisioning_succeeds, provisioning_times_out,
  provisioning_resets, ota_starts, ota_aborts, ota_fails, ota_commits, ota_resets,
  debug_shell_starts, debug_shell_ends, unknown_event, next_control, next_usb_ota_epoch,
  replace_field, dap_route_mask, dap_route_shift, ModeResult, route_network,
}
use air_dap.Mode.Calls.{is_fine}
use air_dap.Mode.Calls.Admission.{dap_policy_stamp}
use air_dap.Mode.Word.Layout.{
  Modes, Fits, pack, unpack, pack-unpack, unpack-pack, unpack-Fits, pack-lt,
}
use air_dap.Mode.Word.Access.{set_route_lem, next_usb_ota_epoch_lem}
use air_dap.Mode.Word.Machine.{mode_step, with_route-Fits, with_usb_ota_epoch-Fits}
use air_dap.Mode.Word.Refines.{next_control-mode_step}
use air_dap.Mode.Stamp.{
  stamp_epoch, Move, by_event, by_route, moved, is_wired, is_change, is_move, run, changes,
}
use air_dap.Prelude.{
  ℕ, ◌+◌, ◌%◌, ◌^◌, ◌<◌, ◌≡◌, sym, refl, ap, ◌∙◌, true, List, [], ◌∷◌, ◌&&◌, arith, All,
  if◌then◌else◌, leb, ◌/◌,
}

-- Whether a step is a change, on the fields.
abbrev step_change : Modes → ModeEvent → ℕ
step_change v e = if is_wired e && is_fine (mode_step v e).0 then 1 else 0

mode_step-epoch :
    (v : Modes) (e : ModeEvent)
    → v.usb_ota_epoch < 256
    → (mode_step v e).1.usb_ota_epoch ≡ (v.usb_ota_epoch + step_change v e) % 256
unfolding mode_step
mode_step-epoch v usb_attached h = refl
mode_step-epoch v usb_detached h = refl
mode_step-epoch v wifi_stops h = omega (arith, h)
mode_step-epoch v wifi_disconnects h = ground (arith, h)
mode_step-epoch v wifi_connects h = omega (arith, h)
mode_step-epoch v wifi_goes_online h = ground (arith, h)
mode_step-epoch v provisioning_starts h = ground (arith, h)
mode_step-epoch v provisioning_succeeds h = ground (arith, h)
mode_step-epoch v provisioning_times_out h = ground (arith, h)
mode_step-epoch v provisioning_resets h = omega (arith, h)
mode_step-epoch v ota_starts h = ground (arith, h)
mode_step-epoch v ota_aborts h = ground (arith, h)
mode_step-epoch v ota_fails h = ground (arith, h)
mode_step-epoch v ota_commits h = ground (arith, h)
mode_step-epoch v ota_resets h = refl
mode_step-epoch v debug_shell_starts h = ground (arith, h)
mode_step-epoch v debug_shell_ends h = ground (arith, h)
mode_step-epoch v unknown_event h = omega (arith, h)

abbrev change : ℕ → Move → ℕ
change c m = if is_change c m then 1 else 0

-- A move keeps the word in its 32 bits, and counts its change in the epoch.
module _ (c : ℕ) (fits : c < 2 ^ 32) where
  event-epoch :
      (e : ModeEvent)
      → (unpack (next_control c e).1).usb_ota_epoch
        ≡ ((unpack c).usb_ota_epoch + change c (by_event e)) % 256
  event-epoch e =
      ap (λ (w : Modes). w.usb_ota_epoch) (next_control-mode_step c e fits).1
      ∙ mode_step-epoch (unpack c) e (unpack-Fits c).usb_ota_epoch-lt
      ∙ ap
          (λ (r : ModeResult).
            ((unpack c).usb_ota_epoch + (if is_wired e && is_fine r then 1 else 0)) % 256)
          (sym (next_control-mode_step c e fits).0)

  event-lt : (e : ModeEvent) → (next_control c e).1 < 2 ^ 32
  event-lt e = (next_control-mode_step c e fits).2

  route_moved :
      (r : ℕ)
      → r < 4
      → moved c (by_route r)
        ≡ pack
            (record (unpack c) { route = r; usb_ota_epoch = ((unpack c).usb_ota_epoch + 1) % 256 })
  route_moved r short =
      ap (λ (t : ℕ). next_usb_ota_epoch (replace_field t dap_route_mask dap_route_shift r))
        (sym (pack-unpack c fits))
      ∙ ap next_usb_ota_epoch (set_route_lem (unpack c) (unpack-Fits c) r short)
      ∙ next_usb_ota_epoch_lem (record (unpack c) { route = r })
          (with_route-Fits (unpack c) (unpack-Fits c) r short)

  routed-Fits :
      (r : ℕ)
      → r < 4
      → Fits (record (unpack c) { route = r; usb_ota_epoch = ((unpack c).usb_ota_epoch + 1) % 256 })
  routed-Fits r short =
      with_usb_ota_epoch-Fits (record (unpack c) { route = r })
        (with_route-Fits (unpack c) (unpack-Fits c) r short) _ (omega arith)

  moved-lt : (m : Move) → is_move m ≡ true → moved c m < 2 ^ 32
  moved-lt (by_event e) h = event-lt e
  moved-lt (by_route r) h =
      omega (arith, route_moved r (short r h), pack-lt _ (routed-Fits r (short r h)))
    where
      short : (r : ℕ) → leb r route_network ≡ true → r < 4
      short r h = ground (arith, h)

  moved-epoch :
      (m : Move)
      → is_move m ≡ true
      → (unpack (moved c m)).usb_ota_epoch ≡ ((unpack c).usb_ota_epoch + change c m) % 256
  moved-epoch (by_event e) h = event-epoch e
  moved-epoch (by_route r) h =
      ap (λ (t : ℕ). (unpack t).usb_ota_epoch) (route_moved r (short r h))
      ∙ ap (λ (w : Modes). w.usb_ota_epoch) (unpack-pack _ (routed-Fits r (short r h)))
    where
      short : (r : ℕ) → leb r route_network ≡ true → r < 4
      short r h = ground (arith, h)

-- Moves are events, and installations of one of the three routes.
abbrev pub Moves : List Move → Type 0
Moves ms = All (λ m. is_move m ≡ true) ms

run-epoch :
    (c : ℕ) (ms : List Move)
    → c < 2 ^ 32
    → Moves ms
    → (unpack (run c ms)).usb_ota_epoch ≡ ((unpack c).usb_ota_epoch + changes c ms) % 256
unfolding run changes
run-epoch c [] fits h = omega (arith, (unpack-Fits c).usb_ota_epoch-lt)
run-epoch c (m ∷ ms) fits h =
    omega (arith, run-epoch (moved c m) ms (moved-lt c fits m h.0) h.1, moved-epoch c fits m h.0)

-- A call that reads the same stamp twice, for whichever client, has missed nothing: if between its
-- readings fewer than 256 USB events, update events and route selections were accepted, then none was,
-- whatever else has happened to Wi-Fi, provisioning and the debug shell.
pub stamp_detects :
    (c owner : ℕ) (ms : List Move)
    → c < 2 ^ 32
    → Moves ms
    → changes c ms < 256
    → dap_policy_stamp c owner ≡ dap_policy_stamp (run c ms) owner
    → changes c ms ≡ 0
stamp_detects c owner ms fits h few same = omega (
  arith,
  run-epoch c ms fits h,
  sym (stamp_epoch c owner) ∙ ap (λ (t : ℕ). t / 2 ^ 8 % 256) same ∙ stamp_epoch (run c ms) owner,
  (unpack-Fits c).usb_ota_epoch-lt,
  few,
)
