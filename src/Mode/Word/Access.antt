-- ===== src/Mode/Word/Access.antt =====
-- Reading and writing one field of the mode word of firmware/components/mode_state/mode_state.c.
use air_dap.Mode.Word.{
  field_value_at, replace_field_at, increment_field_at, set_bit_at, clear_bit_at, bit_and_bit,
}
use air_dap.Mode.Word.Layout.{Modes, Fits, digit, digit-lt, pack}
use air_dap.Mode.{
  test_bit, set_bit, clear_bit, set_wifi, set_provisioning, set_ota, get_wifi, get_provisioning,
  get_ota, get_route, next_usb_ota_epoch, next_wifi_epoch, next_debug_shell_epoch, usb_present,
  initialized, debug_shell_active, replace_field, dap_route_mask, dap_route_shift, wifi_mask,
  wifi_shift, provisioning_mask, provisioning_shift, ota_mask, ota_shift, usb_ota_epoch_mask,
  usb_ota_epoch_shift, wifi_epoch_mask, wifi_epoch_shift, debug_shell_epoch_mask,
  debug_shell_epoch_shift, increment_field, field_value,
}
use air_dap.Prelude.{
  ℕ, ◌+◌, ◌*◌, ◌%◌, ◌^◌, ◌<◌, bit_and, ◌≡◌, sym, refl, ap, ◌∙◌, not, ◌==◌, arith, Bool, true, false,
}
use air_dap.Mode.Word.Shape.{
  above_usb, below_usb, above_wifi, below_wifi, above_provisioning, below_provisioning, above_ota,
  below_ota, above_ready, below_ready, above_usb_ota_epoch, below_usb_ota_epoch, above_wifi_epoch,
  below_wifi_epoch, above_shell, below_shell, above_shell_epoch, below_shell_epoch, above_route,
  below_route, usb_shape, usb_above, usb_below, wifi_shape, wifi_above, wifi_below,
  provisioning_shape, provisioning_above, provisioning_below, ota_shape, ota_above, ota_below,
  ready_shape, ready_above, ready_below, usb_ota_epoch_shape, usb_ota_epoch_above,
  usb_ota_epoch_below, wifi_epoch_shape, wifi_epoch_above, wifi_epoch_below, shell_shape,
  shell_above, shell_below, shell_epoch_shape, shell_epoch_above, shell_epoch_below, route_shape,
  route_above, route_below,
}

pub digit_test : (s : ℕ) (b : Bool) → 0 < 2 ^ s → not (digit b * 2 ^ s == 0) ≡ b
digit_test s true h = ground arith
digit_test s false h = ground arith

module _ (v : Modes) (ok : Fits v) where
  open ok use {
    wifi-lt, provisioning-lt, ota-lt, usb_ota_epoch-lt, wifi_epoch-lt, shell_epoch-lt, route-lt,
  }

  pub get_wifi_lem : get_wifi (pack v) ≡ v.wifi
  unfolding get_wifi
  get_wifi_lem =
      ap (λ (t : ℕ). field_value t wifi_mask wifi_shift) (wifi_shape v ok v.wifi)
      ∙ field_value_at 2 1 29 (above_wifi v) v.wifi (below_wifi v) wifi-lt (wifi_below v ok)
          (wifi_above v ok) refl

  pub set_wifi_lem : (x : ℕ) → x < 4 → set_wifi (pack v) x ≡ pack (record v { wifi = x })
  unfolding set_wifi
  set_wifi_lem x h =
      ap (λ (t : ℕ). replace_field t wifi_mask wifi_shift x) (wifi_shape v ok v.wifi)
      ∙ replace_field_at 2 1 29 (above_wifi v) v.wifi (below_wifi v) wifi-lt (wifi_below v ok)
          (wifi_above v ok) refl x h (omega (arith, h))
      ∙ sym (wifi_shape v ok x)

  pub get_provisioning_lem : get_provisioning (pack v) ≡ v.provisioning
  unfolding get_provisioning
  get_provisioning_lem =
      ap (λ (t : ℕ). field_value t provisioning_mask provisioning_shift)
        (provisioning_shape v ok v.provisioning)
      ∙ field_value_at 2 3 27 (above_provisioning v) v.provisioning (below_provisioning v)
          provisioning-lt (provisioning_below v ok) (provisioning_above v ok) refl

  pub set_provisioning_lem :
      (x : ℕ) → x < 4 → set_provisioning (pack v) x ≡ pack (record v { provisioning = x })
  unfolding set_provisioning
  set_provisioning_lem x h =
      ap (λ (t : ℕ). replace_field t provisioning_mask provisioning_shift x)
        (provisioning_shape v ok v.provisioning)
      ∙ replace_field_at 2 3 27 (above_provisioning v) v.provisioning (below_provisioning v)
          provisioning-lt (provisioning_below v ok) (provisioning_above v ok) refl x h
          (omega (arith, h))
      ∙ sym (provisioning_shape v ok x)

  pub get_ota_lem : get_ota (pack v) ≡ v.ota
  unfolding get_ota
  get_ota_lem =
      ap (λ (t : ℕ). field_value t ota_mask ota_shift) (ota_shape v ok v.ota)
      ∙ field_value_at 2 5 25 (above_ota v) v.ota (below_ota v) ota-lt (ota_below v ok)
          (ota_above v ok) refl

  pub set_ota_lem : (x : ℕ) → x < 4 → set_ota (pack v) x ≡ pack (record v { ota = x })
  unfolding set_ota
  set_ota_lem x h =
      ap (λ (t : ℕ). replace_field t ota_mask ota_shift x) (ota_shape v ok v.ota)
      ∙ replace_field_at 2 5 25 (above_ota v) v.ota (below_ota v) ota-lt (ota_below v ok)
          (ota_above v ok) refl x h (omega (arith, h))
      ∙ sym (ota_shape v ok x)

  pub get_route_lem : get_route (pack v) ≡ v.route
  unfolding get_route
  get_route_lem =
      ap (λ (t : ℕ). field_value t dap_route_mask dap_route_shift) (route_shape v ok v.route)
      ∙ field_value_at 2 30 0 (above_route v) v.route (below_route v) route-lt (route_below v ok)
          (route_above v ok) refl

  pub set_route_lem :
      (x : ℕ)
      → x < 4
      → replace_field (pack v) dap_route_mask dap_route_shift x ≡ pack (record v { route = x })
  set_route_lem x h =
      ap (λ (t : ℕ). replace_field t dap_route_mask dap_route_shift x) (route_shape v ok v.route)
      ∙ replace_field_at 2 30 0 (above_route v) v.route (below_route v) route-lt (route_below v ok)
          (route_above v ok) refl x h (omega (arith, h))
      ∙ sym (route_shape v ok x)

  pub next_usb_ota_epoch_lem :
      next_usb_ota_epoch (pack v) ≡ pack (record v { usb_ota_epoch = (v.usb_ota_epoch + 1) % 256 })
  unfolding next_usb_ota_epoch
  next_usb_ota_epoch_lem =
      ap (λ (t : ℕ). increment_field t usb_ota_epoch_mask usb_ota_epoch_shift)
        (usb_ota_epoch_shape v ok v.usb_ota_epoch)
      ∙ increment_field_at 8 8 16 (above_usb_ota_epoch v) v.usb_ota_epoch (below_usb_ota_epoch v)
          usb_ota_epoch-lt (usb_ota_epoch_below v ok) (usb_ota_epoch_above v ok) refl (omega arith)
          (omega (arith, usb_ota_epoch-lt)) (omega arith) (omega arith)
      ∙ sym (usb_ota_epoch_shape v ok ((v.usb_ota_epoch + 1) % 256))

  pub next_wifi_epoch_lem :
      next_wifi_epoch (pack v) ≡ pack (record v { wifi_epoch = (v.wifi_epoch + 1) % 256 })
  unfolding next_wifi_epoch
  next_wifi_epoch_lem =
      ap (λ (t : ℕ). increment_field t wifi_epoch_mask wifi_epoch_shift)
        (wifi_epoch_shape v ok v.wifi_epoch)
      ∙ increment_field_at 8 16 8 (above_wifi_epoch v) v.wifi_epoch (below_wifi_epoch v)
          wifi_epoch-lt (wifi_epoch_below v ok) (wifi_epoch_above v ok) refl (omega arith)
          (omega (arith, wifi_epoch-lt)) (omega arith) (omega arith)
      ∙ sym (wifi_epoch_shape v ok ((v.wifi_epoch + 1) % 256))

  pub next_debug_shell_epoch_lem :
      next_debug_shell_epoch (pack v) ≡ pack (record v { shell_epoch = (v.shell_epoch + 1) % 32 })
  unfolding next_debug_shell_epoch
  next_debug_shell_epoch_lem =
      ap (λ (t : ℕ). increment_field t debug_shell_epoch_mask debug_shell_epoch_shift)
        (shell_epoch_shape v ok v.shell_epoch)
      ∙ increment_field_at 5 25 2 (above_shell_epoch v) v.shell_epoch (below_shell_epoch v)
          shell_epoch-lt (shell_epoch_below v ok) (shell_epoch_above v ok) refl (omega arith)
          (omega (arith, shell_epoch-lt)) (omega arith) (omega arith)
      ∙ sym (shell_epoch_shape v ok ((v.shell_epoch + 1) % 32))

  pub test_usb_lem : test_bit (pack v) usb_present ≡ v.usb
  unfolding test_bit
  test_usb_lem =
      ap (λ (t : ℕ). not (t == 0))
        (ap (λ (t : ℕ). bit_and t usb_present) (usb_shape v ok v.usb)
          ∙ bit_and_bit 0 31 (above_usb v) (digit v.usb) (below_usb v) (digit-lt v.usb)
              (usb_below v ok) (usb_above v ok))
      ∙ digit_test 0 v.usb (omega arith)

  pub set_usb_lem : set_bit (pack v) usb_present ≡ pack (record v { usb = true })
  set_usb_lem =
      ap (λ (t : ℕ). set_bit t usb_present) (usb_shape v ok v.usb)
      ∙ set_bit_at 0 31 (above_usb v) (digit v.usb) (below_usb v) (digit-lt v.usb) (usb_below v ok)
          (usb_above v ok)
      ∙ sym (usb_shape v ok true)

  pub clear_usb_lem : clear_bit (pack v) usb_present ≡ pack (record v { usb = false })
  clear_usb_lem =
      ap (λ (t : ℕ). clear_bit t usb_present) (usb_shape v ok v.usb)
      ∙ clear_bit_at 0 31 (above_usb v) (digit v.usb) (below_usb v) (digit-lt v.usb)
          (usb_below v ok) (usb_above v ok) refl
      ∙ sym (usb_shape v ok false)

  pub test_ready_lem : test_bit (pack v) initialized ≡ v.ready
  unfolding test_bit
  test_ready_lem =
      ap (λ (t : ℕ). not (t == 0))
        (ap (λ (t : ℕ). bit_and t initialized) (ready_shape v ok v.ready)
          ∙ bit_and_bit 7 24 (above_ready v) (digit v.ready) (below_ready v) (digit-lt v.ready)
              (ready_below v ok) (ready_above v ok))
      ∙ digit_test 7 v.ready (omega arith)

  pub test_shell_lem : test_bit (pack v) debug_shell_active ≡ v.shell
  unfolding test_bit
  test_shell_lem =
      ap (λ (t : ℕ). not (t == 0))
        (ap (λ (t : ℕ). bit_and t debug_shell_active) (shell_shape v ok v.shell)
          ∙ bit_and_bit 24 7 (above_shell v) (digit v.shell) (below_shell v) (digit-lt v.shell)
              (shell_below v ok) (shell_above v ok))
      ∙ digit_test 24 v.shell (omega arith)

  pub set_shell_lem : set_bit (pack v) debug_shell_active ≡ pack (record v { shell = true })
  set_shell_lem =
      ap (λ (t : ℕ). set_bit t debug_shell_active) (shell_shape v ok v.shell)
      ∙ set_bit_at 24 7 (above_shell v) (digit v.shell) (below_shell v) (digit-lt v.shell)
          (shell_below v ok) (shell_above v ok)
      ∙ sym (shell_shape v ok true)

  pub clear_shell_lem : clear_bit (pack v) debug_shell_active ≡ pack (record v { shell = false })
  clear_shell_lem =
      ap (λ (t : ℕ). clear_bit t debug_shell_active) (shell_shape v ok v.shell)
      ∙ clear_bit_at 24 7 (above_shell v) (digit v.shell) (below_shell v) (digit-lt v.shell)
          (shell_below v ok) (shell_above v ok) refl
      ∙ sym (shell_shape v ok false)
