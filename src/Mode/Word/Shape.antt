-- ===== src/Mode/Word/Shape.antt =====
-- Where each field stands in the mode word of firmware/components/mode_state/mode_state.c.
use air_dap.Mode.Word.Layout.{Modes, Fits, digit, pack, bounds}
use air_dap.Prelude.{ℕ, ◌+◌, ◌*◌, ◌^◌, ◌<◌, ◌≡◌, arith, Bool}

-- What stands above and below each field.
abbrev pub above_usb : Modes → ℕ
above_usb v =
    v.wifi
    + v.provisioning * 2 ^ 2
    + v.ota * 2 ^ 4
    + digit v.ready * 2 ^ 6
    + v.usb_ota_epoch * 2 ^ 7
    + v.wifi_epoch * 2 ^ 15
    + digit v.shell * 2 ^ 23
    + v.shell_epoch * 2 ^ 24
    + v.route * 2 ^ 29

abbrev pub below_usb : Modes → ℕ
below_usb v = 0

abbrev pub above_wifi : Modes → ℕ
above_wifi v =
    v.provisioning
    + v.ota * 2 ^ 2
    + digit v.ready * 2 ^ 4
    + v.usb_ota_epoch * 2 ^ 5
    + v.wifi_epoch * 2 ^ 13
    + digit v.shell * 2 ^ 21
    + v.shell_epoch * 2 ^ 22
    + v.route * 2 ^ 27

abbrev pub below_wifi : Modes → ℕ
below_wifi v = digit v.usb

abbrev pub above_provisioning : Modes → ℕ
above_provisioning v =
    v.ota
    + digit v.ready * 2 ^ 2
    + v.usb_ota_epoch * 2 ^ 3
    + v.wifi_epoch * 2 ^ 11
    + digit v.shell * 2 ^ 19
    + v.shell_epoch * 2 ^ 20
    + v.route * 2 ^ 25

abbrev pub below_provisioning : Modes → ℕ
below_provisioning v = digit v.usb + v.wifi * 2 ^ 1

abbrev pub above_ota : Modes → ℕ
above_ota v =
    digit v.ready
    + v.usb_ota_epoch * 2 ^ 1
    + v.wifi_epoch * 2 ^ 9
    + digit v.shell * 2 ^ 17
    + v.shell_epoch * 2 ^ 18
    + v.route * 2 ^ 23

abbrev pub below_ota : Modes → ℕ
below_ota v = digit v.usb + v.wifi * 2 ^ 1 + v.provisioning * 2 ^ 3

abbrev pub above_ready : Modes → ℕ
above_ready v =
    v.usb_ota_epoch
    + v.wifi_epoch * 2 ^ 8
    + digit v.shell * 2 ^ 16
    + v.shell_epoch * 2 ^ 17
    + v.route * 2 ^ 22

abbrev pub below_ready : Modes → ℕ
below_ready v = digit v.usb + v.wifi * 2 ^ 1 + v.provisioning * 2 ^ 3 + v.ota * 2 ^ 5

abbrev pub above_usb_ota_epoch : Modes → ℕ
above_usb_ota_epoch v =
    v.wifi_epoch + digit v.shell * 2 ^ 8 + v.shell_epoch * 2 ^ 9 + v.route * 2 ^ 14

abbrev pub below_usb_ota_epoch : Modes → ℕ
below_usb_ota_epoch v =
    digit v.usb + v.wifi * 2 ^ 1 + v.provisioning * 2 ^ 3 + v.ota * 2 ^ 5 + digit v.ready * 2 ^ 7

abbrev pub above_wifi_epoch : Modes → ℕ
above_wifi_epoch v = digit v.shell + v.shell_epoch * 2 ^ 1 + v.route * 2 ^ 6

abbrev pub below_wifi_epoch : Modes → ℕ
below_wifi_epoch v =
    digit v.usb
    + v.wifi * 2 ^ 1
    + v.provisioning * 2 ^ 3
    + v.ota * 2 ^ 5
    + digit v.ready * 2 ^ 7
    + v.usb_ota_epoch * 2 ^ 8

abbrev pub above_shell : Modes → ℕ
above_shell v = v.shell_epoch + v.route * 2 ^ 5

abbrev pub below_shell : Modes → ℕ
below_shell v =
    digit v.usb
    + v.wifi * 2 ^ 1
    + v.provisioning * 2 ^ 3
    + v.ota * 2 ^ 5
    + digit v.ready * 2 ^ 7
    + v.usb_ota_epoch * 2 ^ 8
    + v.wifi_epoch * 2 ^ 16

abbrev pub above_shell_epoch : Modes → ℕ
above_shell_epoch v = v.route

abbrev pub below_shell_epoch : Modes → ℕ
below_shell_epoch v =
    digit v.usb
    + v.wifi * 2 ^ 1
    + v.provisioning * 2 ^ 3
    + v.ota * 2 ^ 5
    + digit v.ready * 2 ^ 7
    + v.usb_ota_epoch * 2 ^ 8
    + v.wifi_epoch * 2 ^ 16
    + digit v.shell * 2 ^ 24

abbrev pub above_route : Modes → ℕ
above_route v = 0

abbrev pub below_route : Modes → ℕ
below_route v =
    digit v.usb
    + v.wifi * 2 ^ 1
    + v.provisioning * 2 ^ 3
    + v.ota * 2 ^ 5
    + digit v.ready * 2 ^ 7
    + v.usb_ota_epoch * 2 ^ 8
    + v.wifi_epoch * 2 ^ 16
    + digit v.shell * 2 ^ 24
    + v.shell_epoch * 2 ^ 25

module _ (v : Modes) (ok : Fits v) where
  pub usb_shape :
      (x : Bool)
      → pack (record v { usb = x }) ≡ (above_usb v * 2 ^ 1 + digit x) * 2 ^ 0 + below_usb v
  unfolding pack
  usb_shape x = omega arith

  pub usb_above : above_usb v < 2 ^ 31
  usb_above = omega (arith, bounds v ok)

  pub usb_below : below_usb v < 2 ^ 0
  usb_below = omega (arith, bounds v ok)

  pub wifi_shape :
      (x : ℕ) → pack (record v { wifi = x }) ≡ (above_wifi v * 2 ^ 2 + x) * 2 ^ 1 + below_wifi v
  unfolding pack
  wifi_shape x = omega arith

  pub wifi_above : above_wifi v < 2 ^ 29
  wifi_above = omega (arith, bounds v ok)

  pub wifi_below : below_wifi v < 2 ^ 1
  wifi_below = omega (arith, bounds v ok)

  pub provisioning_shape :
      (x : ℕ)
      → pack (record v { provisioning = x })
        ≡ (above_provisioning v * 2 ^ 2 + x) * 2 ^ 3 + below_provisioning v
  unfolding pack
  provisioning_shape x = omega arith

  pub provisioning_above : above_provisioning v < 2 ^ 27
  provisioning_above = omega (arith, bounds v ok)

  pub provisioning_below : below_provisioning v < 2 ^ 3
  provisioning_below = omega (arith, bounds v ok)

  pub ota_shape :
      (x : ℕ) → pack (record v { ota = x }) ≡ (above_ota v * 2 ^ 2 + x) * 2 ^ 5 + below_ota v
  unfolding pack
  ota_shape x = omega arith

  pub ota_above : above_ota v < 2 ^ 25
  ota_above = omega (arith, bounds v ok)

  pub ota_below : below_ota v < 2 ^ 5
  ota_below = omega (arith, bounds v ok)

  pub ready_shape :
      (x : Bool)
      → pack (record v { ready = x }) ≡ (above_ready v * 2 ^ 1 + digit x) * 2 ^ 7 + below_ready v
  unfolding pack
  ready_shape x = omega arith

  pub ready_above : above_ready v < 2 ^ 24
  ready_above = omega (arith, bounds v ok)

  pub ready_below : below_ready v < 2 ^ 7
  ready_below = omega (arith, bounds v ok)

  pub usb_ota_epoch_shape :
      (x : ℕ)
      → pack (record v { usb_ota_epoch = x })
        ≡ (above_usb_ota_epoch v * 2 ^ 8 + x) * 2 ^ 8 + below_usb_ota_epoch v
  unfolding pack
  usb_ota_epoch_shape x = omega arith

  pub usb_ota_epoch_above : above_usb_ota_epoch v < 2 ^ 16
  usb_ota_epoch_above = omega (arith, bounds v ok)

  pub usb_ota_epoch_below : below_usb_ota_epoch v < 2 ^ 8
  usb_ota_epoch_below = omega (arith, bounds v ok)

  pub wifi_epoch_shape :
      (x : ℕ)
      → pack (record v { wifi_epoch = x })
        ≡ (above_wifi_epoch v * 2 ^ 8 + x) * 2 ^ 16 + below_wifi_epoch v
  unfolding pack
  wifi_epoch_shape x = omega arith

  pub wifi_epoch_above : above_wifi_epoch v < 2 ^ 8
  wifi_epoch_above = omega (arith, bounds v ok)

  pub wifi_epoch_below : below_wifi_epoch v < 2 ^ 16
  wifi_epoch_below = omega (arith, bounds v ok)

  pub shell_shape :
      (x : Bool)
      → pack (record v { shell = x }) ≡ (above_shell v * 2 ^ 1 + digit x) * 2 ^ 24 + below_shell v
  unfolding pack
  shell_shape x = omega arith

  pub shell_above : above_shell v < 2 ^ 7
  shell_above = omega (arith, bounds v ok)

  pub shell_below : below_shell v < 2 ^ 24
  shell_below = omega (arith, bounds v ok)

  pub shell_epoch_shape :
      (x : ℕ)
      → pack (record v { shell_epoch = x })
        ≡ (above_shell_epoch v * 2 ^ 5 + x) * 2 ^ 25 + below_shell_epoch v
  unfolding pack
  shell_epoch_shape x = omega arith

  pub shell_epoch_above : above_shell_epoch v < 2 ^ 2
  shell_epoch_above = omega (arith, bounds v ok)

  pub shell_epoch_below : below_shell_epoch v < 2 ^ 25
  shell_epoch_below = omega (arith, bounds v ok)

  pub route_shape :
      (x : ℕ) → pack (record v { route = x }) ≡ (above_route v * 2 ^ 2 + x) * 2 ^ 30 + below_route v
  unfolding pack
  route_shape x = omega arith

  pub route_above : above_route v < 2 ^ 0
  route_above = omega (arith, bounds v ok)

  pub route_below : below_route v < 2 ^ 30
  route_below = omega (arith, bounds v ok)
