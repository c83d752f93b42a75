-- ===== src/Wifi/Backoff.antt =====
-- The retry delay after any history of events: it doubles with each failure from one second to one
-- minute.
use native.Mathlib.Nat.{pow-suc}
use air_dap.Wifi.Machine.{
  Event, Machine, step, init, next_retry_delay, is_connecting, got_ip, authentication_failed,
  transient_disconnect, connect_failed, configuration_updated, configuration_cleared,
  initial_delay_ms,
}
use air_dap.Prelude.{
  ℕ, zero, suc, ◌*◌, ◌^◌, ◌≤◌, ◌≡◌, refl, ap, ◌∙◌, arith, min, Bool, some, List, [], ◌∷◌, ◌&&◌,
  if◌then◌else◌, sym,
}

-- The delay after `n` failures in a row.
pub backoff : ℕ → ℕ
backoff zero = 0
backoff (suc n) = min (initial_delay_ms * 2 ^ n) 60000

backoff_zero : backoff 0 ≡ 0
unfolding backoff
backoff_zero = refl

pow_high : (n : ℕ) → 64 ≤ 2 ^ suc (suc (suc (suc (suc (suc n)))))
pow_high zero = omega arith
pow_high (suc n) = omega (arith, pow_high n, pow-suc 2 (suc (suc (suc (suc (suc (suc n)))))))

backoff_high : (n : ℕ) → backoff (suc (suc (suc (suc (suc (suc (suc n))))))) ≡ 60000
unfolding backoff
backoff_high n = omega (arith, pow_high n)

next_retry_delay-backoff : (n : ℕ) → next_retry_delay (backoff n) ≡ backoff (suc n)
unfolding next_retry_delay backoff
next_retry_delay-backoff zero = refl
next_retry_delay-backoff (suc zero) = refl
next_retry_delay-backoff (suc (suc zero)) = refl
next_retry_delay-backoff (suc (suc (suc zero))) = refl
next_retry_delay-backoff (suc (suc (suc (suc zero)))) = refl
next_retry_delay-backoff (suc (suc (suc (suc (suc zero))))) = refl
next_retry_delay-backoff (suc (suc (suc (suc (suc (suc zero)))))) = refl
next_retry_delay-backoff (suc (suc (suc (suc (suc (suc (suc n))))))) =
    ap next_retry_delay (backoff_high n) ∙ sym (backoff_high (suc n))

-- How many failures in a row an event leaves, from how many there were.
failures : Machine → Event → ℕ → ℕ
failures m authentication_failed n = if m.has_configuration then suc n else n
failures m transient_disconnect n = if m.has_configuration then suc n else n
failures m connect_failed n = if m.has_configuration then suc n else n
failures m got_ip n = if is_connecting m.state && m.link_up then 0 else n
failures m configuration_updated n = 0
failures m configuration_cleared n = 0
failures m _ n = n

step-backoff :
    (m : Machine) (e : Event) (n : ℕ)
    → m.retry_delay_ms ≡ backoff n
    → (step m e).1.retry_delay_ms ≡ backoff (failures m e n)
unfolding step failures
step-backoff m e n h =
    ground (arith, ap next_retry_delay h, next_retry_delay-backoff n, backoff_zero)

-- The machine after a list of events.
pub run : Machine → List Event → Machine
run m [] = m
run m (e ∷ es) = run (step m e).1 es

-- The failures since the machine was last online or configured anew.
pub failures_after : Machine → ℕ → List Event → ℕ
failures_after m n [] = n
failures_after m n (e ∷ es) = failures_after (step m e).1 (failures m e n) es

run-backoff :
    (m : Machine) (n : ℕ) (es : List Event)
    → m.retry_delay_ms ≡ backoff n
    → (run m es).retry_delay_ms ≡ backoff (failures_after m n es)
unfolding run failures_after
run-backoff m n [] h = h
run-backoff m n (e ∷ es) h = run-backoff (step m e).1 (failures m e n) es (step-backoff m e n h)

-- From the start, and whatever events arrive, the retry delay is that of the number of failures since
-- the machine was last online or configured anew: one second after the first, doubled by each further
-- one, one minute from the seventh on.
pub init-run-backoff :
    (old m : Machine) (configured : Bool) (es : List Event)
    → init (some old) configured ≡ some m
    → (run m es).retry_delay_ms ≡ backoff (failures_after m 0 es)
unfolding init
init-run-backoff old m configured es e = run-backoff m 0 es (ground (arith, backoff_zero))
