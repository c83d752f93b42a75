-- ===== src/Wifi/Invariant.antt =====
-- What holds of the machine between two events.
use air_dap.Wifi.Machine.{
  stopped, disconnected, connecting, online, no_failure, Event, Machine, no_effects, step, init,
  next_retry_delay, retry_expired, link_connected, got_ip,
}
use air_dap.Prelude.{◌≤◌, ◌<◌, ◌≡◌, ◌≢◌, ◌⊎◌, arith, Bool, true, false, some}

pub record IsConsistent (m : Machine) : Type 0 where
  -- Without a configuration the machine is stopped, without a link.
  pub unconfigured : m.has_configuration ≡ false → (m.state ≡ stopped) × (m.link_up ≡ false)
  pub at_rest : m.state ≡ stopped → m.retry_delay_ms ≡ 0
  -- A delay is none, or between the initial one and the maximum.
  pub delay_range :
      (m.retry_delay_ms ≡ 0) ⊎ ((1000 ≤ m.retry_delay_ms) × (m.retry_delay_ms ≤ 60000))
  -- A machine that waits for a retry has a failure, a delay and no link.
  pub waiting :
      m.state ≡ disconnected
      → (m.last_failure ≢ no_failure) × (0 < m.retry_delay_ms) × (m.link_up ≡ false)
  pub settled : m.state ≡ online → (m.last_failure ≡ no_failure) × (m.retry_delay_ms ≡ 0)

-- Every event keeps the machine consistent: unconfigured only when stopped, retry delays between one
-- second and one minute, a failure and a delay recorded whenever it waits for a retry, and neither
-- when it is online.
pub step-IsConsistent : (m : Machine) (e : Event) → IsConsistent m → IsConsistent (step m e).1
unfolding step next_retry_delay
step-IsConsistent m e c = ground arith

pub init-IsConsistent :
    (old m : Machine) (configured : Bool) → init (some old) configured ≡ some m → IsConsistent m
unfolding init
init-IsConsistent old m configured e = ground arith

-- For a consistent machine, the effects of an event describe what it did: a change of state is always
-- published; what is published is the new state; a connection is attempted only with a configuration and
-- towards the connecting state; a retry is scheduled only with the delay that the machine keeps and
-- towards the disconnected state, and always on coming to that state from another; and an event that is
-- not known changes nothing and has no effects.
pub step-effects :
    (m : Machine) (e : Event)
    → IsConsistent m
    → let (known, m', effects) = step m e in
      (m'.state ≢ m.state → effects.publish_state ≡ true)
      × (effects.publish_state ≡ true → effects.published_state ≡ m'.state)
      × (effects.connect ≡ true → (m'.has_configuration ≡ true) × (m'.state ≡ connecting))
      × (0 < effects.retry_after_ms
          → (effects.retry_after_ms ≡ m'.retry_delay_ms) × (m'.state ≡ disconnected))
      × (m'.state ≡ disconnected → (m.state ≡ disconnected) ⊎ (0 < effects.retry_after_ms))
      × (known ≡ false → (m' ≡ m) × (effects ≡ no_effects))
unfolding step next_retry_delay
step-effects m e c = ground arith

-- A configured machine that is waiting for a retry comes online when the retry timer expires, the link
-- connects and an address is assigned, and then has no failure and no delay left.
pub recovery :
    (m : Machine)
    → m.has_configuration ≡ true
    → m.state ≡ disconnected
    → let m' = (step (step (step m retry_expired).1 link_connected).1 got_ip).1 in
      (m'.state ≡ online) × (m'.last_failure ≡ no_failure) × (m'.retry_delay_ms ≡ 0)
unfolding step next_retry_delay
recovery m configured waiting = ground arith
