-- ===== src/Mode/Policy.antt =====
-- Which client the policy of firmware/components/mode_state/mode_state.c admits.
use air_dap.Ownership.Word.{owner_usb, owner_network, owner_diagnostic}
use air_dap.Mode.{get_route, ota_idle, wifi_online, route_auto, route_usb, route_network}
use air_dap.Mode.Calls.{is_allowed, dap_policy}
use air_dap.Mode.Word.Layout.{Modes, Fits, pack, unpack, pack-unpack, unpack-Fits}
use air_dap.Mode.Word.Access.{
  get_route_lem, get_wifi_lem, get_ota_lem, test_usb_lem, test_ready_lem, test_shell_lem,
}
use air_dap.Prelude.{ℕ, ◌<◌, ◌^◌, ◌≡◌, ◌≢◌, ◌⊎◌, ◌↔◌, subst, Bool, true, false, arith}

-- That the network may use the port, or, for a board control, that no debug shell is running.
abbrev pub Reachable : Modes → Bool → Type 0
Reachable v true = v.shell ≡ false
Reachable v false = (v.route ≢ route_usb) × ((v.route ≢ route_auto) ⊎ (v.usb ≡ false))

-- The policy, in terms of the fields.
abbrev pub Admits : Modes → ℕ → Bool → Bool → Type 0
Admits v owner authenticated board_control =
    (v.ready ≡ true)
    × (v.ota ≡ ota_idle)
    × (((owner ≡ owner_usb) × (v.usb ≡ true) × (v.route ≢ route_network))
        ⊎ ((owner ≡ owner_diagnostic) × (v.usb ≡ true))
        ⊎ ((owner ≡ owner_network)
            × (authenticated ≡ true)
            × (v.wifi ≡ wifi_online)
            × Reachable v board_control))

module _ (v : Modes) (ok : Fits v) (owner : ℕ) (authenticated : Bool) where
  admitted-pack :
      (board_control : Bool)
      → is_allowed (dap_policy (pack v) owner authenticated board_control) ≡ true
      → Admits v owner authenticated board_control
  unfolding dap_policy
  admitted-pack true h = ground (
    arith,
    get_route_lem v ok,
    get_wifi_lem v ok,
    get_ota_lem v ok,
    test_usb_lem v ok,
    test_ready_lem v ok,
    test_shell_lem v ok,
    h,
  )
  admitted-pack false h = ground (
    arith,
    get_route_lem v ok,
    get_wifi_lem v ok,
    get_ota_lem v ok,
    test_usb_lem v ok,
    test_ready_lem v ok,
    test_shell_lem v ok,
    h,
  )

  pack_admitted :
      (board_control : Bool)
      → Admits v owner authenticated board_control
      → is_allowed (dap_policy (pack v) owner authenticated board_control) ≡ true
  unfolding dap_policy
  pack_admitted true h = ground (
    arith,
    get_route_lem v ok,
    get_wifi_lem v ok,
    get_ota_lem v ok,
    test_usb_lem v ok,
    test_ready_lem v ok,
    test_shell_lem v ok,
    h,
  )
  pack_admitted false h = ground (
    arith,
    get_route_lem v ok,
    get_wifi_lem v ok,
    get_ota_lem v ok,
    test_usb_lem v ok,
    test_ready_lem v ok,
    test_shell_lem v ok,
    h,
  )

-- The policy lets a client pass exactly where the modes are initialised, no update runs, and: USB and
-- the diagnostic client find USB attached, and USB a route that is not the network's; the network is
-- authenticated and online, and for a board control finds no debug shell, otherwise a route that is
-- neither USB's nor, with USB attached, automatic.
pub dap_policy-Admits :
    (c owner : ℕ) (authenticated board_control : Bool)
    → c < 2 ^ 32
    → (is_allowed (dap_policy c owner authenticated board_control) ≡ true)
      ↔ Admits (unpack c) owner authenticated board_control
dap_policy-Admits c owner authenticated board_control fits =
    subst
      (λ (t : ℕ).
        (is_allowed (dap_policy t owner authenticated board_control) ≡ true)
        ↔ Admits (unpack c) owner authenticated board_control)
      (pack-unpack c fits)
      (
        admitted-pack (unpack c) (unpack-Fits c) owner authenticated board_control,
        pack_admitted (unpack c) (unpack-Fits c) owner authenticated board_control,
      )

-- USB and the network are never both let pass to the port on the same modes, where the route is one of
-- the three that are ever stored.
pub dap_policy_exclusive :
    (c : ℕ) (first second : Bool)
    → get_route c < 3
    → is_allowed (dap_policy c owner_usb first false) ≡ true
    → is_allowed (dap_policy c owner_network second false) ≡ false
unfolding dap_policy
dap_policy_exclusive c first second known h = ground arith
