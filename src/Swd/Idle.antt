-- ===== src/Swd/Idle.antt =====
-- The idle cycles of `write_idle_cycles`.
use air_dap.Swd.{EspError, ok, Bus, done, set_host_output, write_bits, read_bits, turnaround, check}
use air_dap.Swd.Transfer.{idle_chunk, idle_loop, write_idle_cycles}
use air_dap.Prelude.{
  ℕ, zero, suc, ◌+◌, ◌-◌, ◌≤◌, ◌<◌, ◌≡◌, ◌≢◌, inl, inr, refl, arith, false, not, List, [], ◌∷◌, All,
  ltb, ◌==◌, if◌then◌else◌, Bool-cases, subst,
}

-- The sizes of the writes of a program whose operations all succeed, and its result.
abbrev pub sizes : Bus EspError → List ℕ × EspError
sizes (done e) = ([], e)
sizes (set_host_output h k) = sizes (k ok)
sizes (write_bits b n k) = let (ns, e) = sizes (k ok) in (n ∷ ns, e)
sizes (read_bits n k) = sizes (k ok 0)
sizes (turnaround h k) = sizes (k ok)

abbrev pub sum : List ℕ → ℕ
sum [] = 0
sum (n ∷ ns) = n + sum ns

idle_chunk-fits :
    (remaining : ℕ)
    → 0 < remaining
    → remaining ≢ 1
    → (2 ≤ idle_chunk remaining)
      × (idle_chunk remaining ≤ 64)
      × (idle_chunk remaining ≤ remaining)
      × (remaining - idle_chunk remaining ≢ 1)
unfolding idle_chunk
idle_chunk-fits remaining p n = ground arith

-- Cycles that are sent exactly, in transactions that the hardware can do.
abbrev Exact : ℕ → List ℕ × EspError → Type 0
Exact n (ns, e) = (sum ns ≡ n) × All (λ k. (2 ≤ k) × (k ≤ 64)) ns × (e ≡ ok)

idle_loop-Exact :
    (fuel remaining : ℕ)
    → remaining ≢ 1
    → remaining ≤ fuel
    → Exact remaining (sizes (idle_loop fuel remaining))
unfolding idle_loop check
idle_loop-Exact zero remaining n h = (omega arith, tt, refl)
idle_loop-Exact (suc fuel) remaining n h = elim (Bool-cases (not (ltb 0 remaining))) [
  | inl e ↦ rw e (ground (arith, e), tt, refl)
  | inr e ↦
      let (low, high, within, other) = idle_chunk-fits remaining (ground (arith, e)) n in
      let kept : ltb remaining (idle_chunk remaining) ≡ false = ground arith in
      let (total, sized, fine) =
        idle_loop-Exact fuel (remaining - idle_chunk remaining) other (omega arith) in
      rw (e, kept) (omega (arith, total, within), ((low, high), sized), fine)
]

single : Exact 2 (sizes (write_idle_cycles 1))
unfolding write_idle_cycles idle_loop idle_chunk check
single = (refl, ((omega arith, omega arith), tt), refl)

-- `write_idle_cycles` always ends: if its writes succeed it sends exactly the cycles asked for, except
-- that a single one becomes two, in transactions of 2 to 64 bits, and returns OK.
pub write_idle_cycles-sizes :
    (cycles : ℕ)
    → let (ns, e) = sizes (write_idle_cycles cycles) in
      (sum ns ≡ (if cycles == 1 then 2 else cycles)) × All (λ k. (2 ≤ k) × (k ≤ 64)) ns × (e ≡ ok)
unfolding write_idle_cycles
write_idle_cycles-sizes cycles = elim (Bool-cases (cycles == 1)) [
  | inl e ↦
      rw e
        (subst (λ (n : ℕ). Exact 2 (sizes (write_idle_cycles n))) (one (ground (arith, e))) single)
  | inr e ↦ rw e (idle_loop-Exact cycles cycles (ground (arith, e)) (omega arith))
]
  where
    one : cycles ≡ 1 → 1 ≡ cycles
    one x = omega (arith, x)
