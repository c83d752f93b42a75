-- ===== src/Swd/Drive.antt =====
-- Who drives the data line, in the parts of a transfer.
use air_dap.Swd.{
  EspError, ok, invalid_arg, invalid_response, invalid_crc, timed_out, driver, SwdIo, SwdRequest,
  Bus, done, set_host_output, write_bits, read_bits, turnaround, bind, check, is_ok,
}
use air_dap.Swd.Transfer.{
  idle_loop, write_idle_cycles, write_data_phase_and_idle, restore_host_and_idle, skip_data,
  complete_error_data_phase, swd_read,
}
use air_dap.Prelude.{
  ℕ, zero, suc, ◌≡◌, ◌≢◌, refl, Bool, true, false, not, ltb, ◌==◌, if◌then◌else◌, Bool-cases, inl,
  inr,
}

-- Who drives the data line; after a turnaround that failed nobody knows.
pub data Line : Type 0 where
  by_host : Line
  by_target : Line
  lost : Line

abbrev pub driven : Bool → Line
driven true = by_host
driven false = by_target

-- `Orderly P line p`: from that line on, `p` writes only while the host drives the line and reads only
-- while the target does; it turns the line round only to the other side; after a turnaround that fails
-- the line is lost, and `p` neither writes, reads, turns nor sets it; and `P` holds of the line and the
-- result at the end.
abbrev pub Orderly : {A : Type 0} → (Line → A → Type 0) → Line → Bus A → Type 0
Orderly P line (done a) = P line a
Orderly P line (set_host_output h k) =
    (line ≢ lost) × ((e : EspError) → Orderly P (if is_ok e then driven h else line) (k e))
Orderly P line (write_bits b n k) = (line ≡ by_host) × ((e : EspError) → Orderly P line (k e))
Orderly P line (read_bits n k) =
    (line ≡ by_target) × ((e : EspError) (b : ℕ) → Orderly P line (k e b))
Orderly P line (turnaround h k) =
    (line ≡ driven (not h))
    × ((e : EspError) → Orderly P (if is_ok e then driven h else lost) (k e))

-- If the result is OK, the host drives the line.
abbrev pub Restored : Line → EspError → Type 0
Restored line e = e ≡ ok → line ≡ by_host

pub Orderly-bind :
    {A B : Type 0} (P : Line → A → Type 0) (Q : Line → B → Type 0) (f : A → Bus B) (p : Bus A)
    (line : Line)
    → Orderly P line p
    → ((h : Line) (a : A) → P h a → Orderly Q h (f a))
    → Orderly Q line (bind p f)
unfolding bind
Orderly-bind P Q f (done a) line o h = h line a o
Orderly-bind P Q f (set_host_output x k) line o h = (o.0, λ e. Orderly-bind P Q f (k e) _ (o.1 e) h)
Orderly-bind P Q f (write_bits b n k) line o h = (o.0, λ e. Orderly-bind P Q f (k e) line (o.1 e) h)
Orderly-bind P Q f (read_bits n k) line o h =
    (o.0, λ e b. Orderly-bind P Q f (k e b) line (o.1 e b) h)
Orderly-bind P Q f (turnaround x k) line o h = (o.0, λ e. Orderly-bind P Q f (k e) _ (o.1 e) h)

check-Orderly :
    (e : EspError) (line : Line) (next : Bus EspError)
    → (e ≡ ok → Orderly Restored line next)
    → Orderly Restored line (check e next)
unfolding check
check-Orderly ok line next h = h refl
check-Orderly invalid_arg line next h = λ x. cc
check-Orderly invalid_response line next h = λ x. cc
check-Orderly invalid_crc line next h = λ x. cc
check-Orderly timed_out line next h = λ x. cc
check-Orderly (driver n) line next h = λ x. cc

idle_loop-Orderly : (fuel remaining : ℕ) → Orderly Restored by_host (idle_loop fuel remaining)
unfolding idle_loop
idle_loop-Orderly zero remaining = λ _. refl
idle_loop-Orderly (suc fuel) remaining = elim (Bool-cases (not (ltb 0 remaining))) [
  | inl e ↦ rw e (λ _. refl)
  | inr e ↦ rw e (refl, λ x. check-Orderly x by_host _ (λ _. idle_loop-Orderly fuel _))
]

write_idle_cycles-Orderly : (n : ℕ) → Orderly Restored by_host (write_idle_cycles n)
unfolding write_idle_cycles
write_idle_cycles-Orderly n = idle_loop-Orderly n n

pub write_data-Orderly :
    (io : SwdIo) (bits : ℕ) → Orderly Restored by_host (write_data_phase_and_idle io bits)
unfolding write_data_phase_and_idle
write_data-Orderly io bits =
    (refl, λ e. check-Orderly e by_host _ (λ _. write_idle_cycles-Orderly _))

-- The line after a turnaround to the host, with what follows it.
pub turned-Orderly :
    (e : EspError) (next : Bus EspError)
    → Orderly Restored by_host next
    → Orderly Restored (if is_ok e then by_host else lost) (check e next)
unfolding check
turned-Orderly ok next o = o
turned-Orderly invalid_arg next o = λ x. cc
turned-Orderly invalid_response next o = λ x. cc
turned-Orderly invalid_crc next o = λ x. cc
turned-Orderly timed_out next o = λ x. cc
turned-Orderly (driver n) next o = λ x. cc

pub restore-Orderly : (io : SwdIo) → Orderly Restored by_target (restore_host_and_idle io)
unfolding restore_host_and_idle
restore-Orderly io = (refl, λ e. turned-Orderly e _ (write_idle_cycles-Orderly _))

pub not_ok : (e : EspError) → is_ok e ≡ false → e ≢ ok
not_ok e x q = cc

pub is_ok-ok : (e : EspError) → is_ok e ≡ true → e ≡ ok
is_ok-ok ok x = refl
is_ok-ok invalid_arg x = cc
is_ok-ok invalid_response x = cc
is_ok-ok invalid_crc x = cc
is_ok-ok timed_out x = cc
is_ok-ok (driver n) x = cc

pub skip_data-Orderly : (io : SwdIo) → Orderly Restored by_target (skip_data io)
unfolding skip_data
skip_data-Orderly io = (
  refl,
  λ e b. elim (Bool-cases (is_ok e)) [
    | inl x ↦ rw x (restore-Orderly io)
    | inr x ↦ rw x (
        Orderly-bind Restored Restored (λ _. done e) (restore_host_and_idle io) by_target
          (restore-Orderly io) (λ h a r q. absurd (not_ok e x q)))
  ],
)

pub error_phase-Orderly :
    (io : SwdIo) (request : SwdRequest)
    → Orderly Restored by_target (complete_error_data_phase io request)
unfolding complete_error_data_phase
error_phase-Orderly io request = elim (Bool-cases (not io.data_phase)) [
  | inl x ↦ rw x (restore-Orderly io)
  | inr x ↦ rw x (elim (Bool-cases (request.direction == swd_read)) [
    | inl y ↦ rw y (skip_data-Orderly io)
    | inr y ↦ rw y (refl, λ e. turned-Orderly e _ (write_data-Orderly io 0))
  ])
]
