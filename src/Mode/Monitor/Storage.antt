-- ===== src/Mode/Monitor/Storage.antt =====
-- The selection of a route in firmware/components/mode_state/mode_state.c, and its storage: what has
-- been saved when the mode word is written.
use air_dap.Ownership.Word.{owner_none, owner_diagnostic, Result, Operation}
use air_dap.Ownership.Calls.{control_begin, operation_end}
use air_dap.Mode.{
  test_bit, initialized, ota_mask, get_route, route_network, route_network_auto_toggle,
  replace_field, dap_route_mask, dap_route_shift, next_usb_ota_epoch,
}
use air_dap.Mode.Program.{
  NvsError, nvs_ok, nvs_not_found, nvs_fails, ModeProgram, returns, load_mode, arbiter, after,
}
use air_dap.Mode.Calls.{DapResult, dap_busy, storage_failed, is_allowed, ownership_result}
use air_dap.Mode.Calls.Route.{
  is_nvs_ok, storage_commit, storage_write, storage_save, selected_route, install_route,
  change_route, select_route, set_dap_route, no_operation, operation_owner,
}
use air_dap.Mode.Word.Layout.{Modes, Fits, unpack, pack-unpack, unpack-Fits}
use air_dap.Mode.Word.Access.{get_route_lem, set_route_lem, next_usb_ota_epoch_lem}
use air_dap.Mode.Word.Machine.{with_route-Fits, with_usb_ota_epoch-Fits}
use air_dap.Mode.Monitor.{
  Seen, writes_mode, sets_nvs, commits_nvs, Obeys, Obeys-if, Obeys-after, Obeys-arbiter, Yields-any,
}
use air_dap.Prelude.{
  ℕ, zero, suc, ◌+◌, ◌%◌, ◌^◌, ◌<◌, ◌≡◌, refl, sym, ap, ◌∙◌, arith, Bool, true, false, not, Option,
  none, some, ◌==◌, ltb, if◌then◌else◌, ◌⊎◌, inl, inr,
}

-- The word that `set_dap_route` writes has the route that it selects.
installed_route :
    (control selected : ℕ)
    → control < 2 ^ 32
    → selected < 4
    → get_route (next_usb_ota_epoch (replace_field control dap_route_mask dap_route_shift selected))
      ≡ selected
installed_route control selected fits short =
    ap
      (λ (t : ℕ).
        get_route (next_usb_ota_epoch (replace_field t dap_route_mask dap_route_shift selected)))
      (sym (pack-unpack control fits))
    ∙ ap (λ (t : ℕ). get_route (next_usb_ota_epoch t)) (set_route_lem v ok selected short)
    ∙ ap get_route (next_usb_ota_epoch_lem w routed)
    ∙ get_route_lem (record w { usb_ota_epoch = (w.usb_ota_epoch + 1) % 256 })
        (with_usb_ota_epoch-Fits w routed _ (omega arith))
  where
    v : Modes
    v = unpack control

    ok : Fits v
    ok = unpack-Fits control

    w : Modes
    w = record v { route = selected }

    routed : Fits w
    routed = with_route-Fits v ok selected short

selected_route-lt :
    (route control : ℕ)
    → ltb route_network_auto_toggle route ≡ false
    → selected_route route control < 4
unfolding selected_route
selected_route-lt route control h = ground (arith, h)

-- The route given to `nvs_set_u8`, the route that `nvs_commit` has made lasting, and whether the mode
-- word has been written.
pub record Saved : Type 0 where
  pub pending : Option ℕ
  pub saved : Option ℕ
  pub wrote : Bool

abbrev pub unsaved : Saved
unsaved = record { pending = none; saved = none; wrote = false }

-- The mode word may be written only with the route that was committed last.
abbrev pub WritesSaved : Saved → Seen → Type 0
WritesSaved s (writes_mode d) = s.saved ≡ some (get_route d)
WritesSaved s _ = Unit

abbrev pub saves : Saved → Seen → Saved
saves s (writes_mode d) = record s { wrote = true }
saves s (sets_nvs v nvs_ok) = record s { pending = some v }
saves s (sets_nvs v nvs_not_found) = record s { pending = none }
saves s (sets_nvs v nvs_fails) = record s { pending = none }
saves s (commits_nvs nvs_ok) = record s { saved = s.pending }
saves s _ = s

-- A result other than `allowed` comes with a mode word that was not written.
abbrev pub WrittenIfAllowed : Saved → DapResult → Type 0
WrittenIfAllowed s result = (is_allowed result ≡ true) ⊎ (s.wrote ≡ false)

abbrev pub SavedFirst : ModeProgram DapResult → Type 0
SavedFirst p = Obeys WritesSaved saves WrittenIfAllowed unsaved p

-- What a call of `storage_save` leaves.
abbrev Stored : ℕ → Saved → Bool → Type 0
Stored route s done = (s.wrote ≡ false) × (done ≡ true → s.saved ≡ some route)

storage_commit-Stored :
    (route : ℕ) (s : Saved)
    → s.wrote ≡ false
    → (e : NvsError)
    → Obeys WritesSaved saves (Stored route) (saves s (sets_nvs route e)) (storage_commit e)
unfolding storage_commit
storage_commit-Stored route s fresh nvs_ok = committed
  where
    committed :
        (c : NvsError)
        → Unit {0}
          × (Unit {0}
              × Stored route
                  (saves (saves s (sets_nvs route nvs_ok)) (commits_nvs c))
                  (is_nvs_ok c))
    committed nvs_ok = (tt, (tt, (fresh, λ _. refl)))
    committed nvs_not_found = (tt, (tt, (fresh, λ e. cc)))
    committed nvs_fails = (tt, (tt, (fresh, λ e. cc)))
storage_commit-Stored route s fresh nvs_not_found = (tt, (fresh, λ e. cc))
storage_commit-Stored route s fresh nvs_fails = (tt, (fresh, λ e. cc))

storage_save-Stored :
    (route : ℕ) (s : Saved)
    → s.wrote ≡ false
    → Obeys WritesSaved saves (Stored route) s (storage_save route)
unfolding storage_save storage_write
storage_save-Stored route s fresh =
    Obeys-if WritesSaved saves (Stored route) s (ltb route_network route) _ _
      (λ _. (fresh, λ e. cc)) (λ _. (tt, opened))
  where
    opened : (e : NvsError) → Obeys WritesSaved saves (Stored route) s (storage_write route e)
    opened nvs_ok = λ e. (tt, storage_commit-Stored route s fresh e)
    opened nvs_not_found = (fresh, λ e. cc)
    opened nvs_fails = (fresh, λ e. cc)

install_route-SavedFirst :
    (fuel selected control : ℕ) (s : Saved)
    → control < 2 ^ 32
    → selected < 4
    → s.saved ≡ some selected
    → Obeys WritesSaved saves WrittenIfAllowed s (install_route fuel selected control)
unfolding install_route
install_route-SavedFirst zero selected control s fits short ready = tt
install_route-SavedFirst (suc fuel) selected control s fits short ready = (
  ready ∙ ap some (sym (installed_route control selected fits short)),
  inl refl,
  λ v w. install_route-SavedFirst fuel selected v s w short ready,
)

change_route-SavedFirst :
    (fuel selected control : ℕ) (s : Saved)
    → control < 2 ^ 32
    → selected < 4
    → s.wrote ≡ false
    → Obeys WritesSaved saves WrittenIfAllowed s (change_route fuel selected control)
unfolding change_route
change_route-SavedFirst fuel selected control s fits short fresh =
    Obeys-if WritesSaved saves WrittenIfAllowed s (selected == get_route control) _ _
      (λ _. inr fresh)
      (λ _.
        Obeys-after WritesSaved saves (Stored selected) WrittenIfAllowed _ s (storage_save selected)
          (storage_save-Stored selected s fresh) stored)
  where
    stored :
        (t : Saved) (done : Bool)
        → Stored selected t done
        → Obeys WritesSaved saves WrittenIfAllowed t
            (if done then install_route fuel selected control else returns storage_failed)
    stored t true h = install_route-SavedFirst fuel selected control t fits short (h.1 refl)
    stored t false h = inr h.0

select_route-SavedFirst :
    (fuel route control : ℕ) (s : Saved)
    → ltb route_network_auto_toggle route ≡ false
    → control < 2 ^ 32
    → s.wrote ≡ false
    → Obeys WritesSaved saves WrittenIfAllowed s (select_route fuel route control)
unfolding select_route
select_route-SavedFirst fuel route control s known fits fresh =
    Obeys-if WritesSaved saves WrittenIfAllowed s (not (test_bit control initialized)) _ _
      (λ _. inr fresh)
      (λ _.
        Obeys-if WritesSaved saves WrittenIfAllowed s (test_bit control ota_mask) _ _
          (λ _. inr fresh)
          (λ _. (
            tt,
            λ inflight.
                Obeys-if WritesSaved saves WrittenIfAllowed s (not (inflight == 0)) _ _
                  (λ _. inr fresh)
                  (λ _.
                    change_route-SavedFirst fuel (selected_route route control) control s fits
                      (selected_route-lt route control known) fresh),
          )))

-- Whatever the words that it reads, and whatever the arbiter and the NVS library answer: every word
-- that `set_dap_route` writes to `mode_control` has the route that `nvs_commit` made lasting just
-- before, and where its result is not `allowed`, a failed save included, it has written none.
pub set_dap_route-SavedFirst : (fuel route : ℕ) → SavedFirst (set_dap_route fuel route)
unfolding set_dap_route
set_dap_route-SavedFirst fuel route =
    Obeys-if WritesSaved saves WrittenIfAllowed unsaved (ltb route_network_auto_toggle route) _ _
      (λ _. inr refl)
      (λ known.
        Obeys-arbiter WritesSaved saves (λ _. Unit) WrittenIfAllowed _ unsaved
          (control_begin owner_diagnostic no_operation) tt refl
          (Yields-any (λ _. Unit) (λ _. tt) (control_begin owner_diagnostic no_operation))
          (λ begun _. reserved known begun))
  where
    reserved :
        ltb route_network_auto_toggle route ≡ false
        → (begun : Result × Option Operation)
        → Obeys WritesSaved saves WrittenIfAllowed unsaved (
            if not (is_allowed (ownership_result begun.0))
            then returns (ownership_result begun.0)
            else if not (operation_owner begun.1 == owner_none)
            then arbiter (operation_end begun.1) (λ _. returns dap_busy)
            else load_mode λ control.
              after
                (select_route fuel route control)
                λ result. arbiter (operation_end begun.1) λ _. returns result)
    reserved known begun =
        Obeys-if WritesSaved saves WrittenIfAllowed unsaved
          (not (is_allowed (ownership_result begun.0))) _ _ (λ _. inr refl)
          (λ _.
            Obeys-if WritesSaved saves WrittenIfAllowed unsaved
              (not (operation_owner begun.1 == owner_none)) _ _
              (λ _.
                Obeys-arbiter WritesSaved saves (λ _. Unit) WrittenIfAllowed _ unsaved
                  (operation_end begun.1) tt refl
                  (Yields-any (λ _. Unit) (λ _. tt) (operation_end begun.1)) (λ _ _. inr refl))
              (λ _. (
                tt,
                λ control fits.
                    Obeys-after WritesSaved saves WrittenIfAllowed WrittenIfAllowed _ unsaved
                      (select_route fuel route control)
                      (select_route-SavedFirst fuel route control unsaved known fits refl)
                      (λ t result h.
                        Obeys-arbiter WritesSaved saves (λ _. Unit) WrittenIfAllowed _ t
                          (operation_end begun.1) tt refl
                          (Yields-any (λ _. Unit) (λ _. tt) (operation_end begun.1)) (λ _ _. h)),
              )))
