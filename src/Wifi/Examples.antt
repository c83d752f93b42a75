-- ===== src/Wifi/Examples.antt =====
-- The theorems of the station state machine at concrete machines.
use air_dap.Wifi.Machine.{
  Machine, step, init, no_effects, stopped, disconnected, connecting, online, no_failure, transient,
  retry_expired, link_connected, got_ip, transient_disconnect, sta_started,
}
use air_dap.Wifi.Invariant.{IsConsistent, step-IsConsistent, step-effects, recovery}
use air_dap.Wifi.Backoff.{backoff, run, failures_after, init-run-backoff}
use air_dap.Prelude.{◌<◌, ◌≡◌, ◌≢◌, ◌⊎◌, inr, refl, arith, some, true, false, [], ◌∷◌}

-- After the second failure.
abbrev waiting : Machine
waiting = record {
  state = disconnected;
  last_failure = transient;
  retry_delay_ms = 2000;
  has_configuration = true;
  link_up = false;
}

waiting-IsConsistent : IsConsistent waiting
waiting-IsConsistent = record {
  unconfigured = λ e. cc;
  at_rest = λ e. cc;
  delay_range = inr (omega arith, omega arith);
  waiting = λ _. (λ e. cc, omega arith, refl);
  settled = λ e. cc;
}

step-IsConsistent_example : IsConsistent (step waiting transient_disconnect).1
step-IsConsistent_example = step-IsConsistent waiting transient_disconnect waiting-IsConsistent

step-effects_example :
    let (known, m', effects) = step waiting retry_expired in
    (m'.state ≢ waiting.state → effects.publish_state ≡ true)
    × (effects.publish_state ≡ true → effects.published_state ≡ m'.state)
    × (effects.connect ≡ true → (m'.has_configuration ≡ true) × (m'.state ≡ connecting))
    × (0 < effects.retry_after_ms
        → (effects.retry_after_ms ≡ m'.retry_delay_ms) × (m'.state ≡ disconnected))
    × (m'.state ≡ disconnected → (waiting.state ≡ disconnected) ⊎ (0 < effects.retry_after_ms))
    × (known ≡ false → (m' ≡ waiting) × (effects ≡ no_effects))
step-effects_example = step-effects waiting retry_expired waiting-IsConsistent

recovery_example :
    let m' = (step (step (step waiting retry_expired).1 link_connected).1 got_ip).1 in
    (m'.state ≡ online) × (m'.last_failure ≡ no_failure) × (m'.retry_delay_ms ≡ 0)
recovery_example = recovery waiting refl refl

abbrev begun : Machine
begun = record {
  state = stopped;
  last_failure = no_failure;
  retry_delay_ms = 0;
  has_configuration = true;
  link_up = false;
}

begun-start : init (some waiting) true ≡ some begun
unfolding init
begun-start = refl

init-run-backoff_example :
    (run begun (sta_started ∷ transient_disconnect ∷ transient_disconnect ∷ [])).retry_delay_ms
    ≡ backoff
        (failures_after begun 0 (sta_started ∷ transient_disconnect ∷ transient_disconnect ∷ []))
init-run-backoff_example =
    init-run-backoff waiting begun true
      (sta_started ∷ transient_disconnect ∷ transient_disconnect ∷ []) begun-start
