-- ===== src/Ownership/System/Claims.antt =====
-- Claims across the history of the system.
use air_dap.Ownership.Word.{
  Result, ok, Claim, Operation, control_generation, is_owner, make_control, valid_claim,
  make_control_fields, state_transition, owner_none, set_active,
}
use air_dap.Ownership.Program.{Program, ret, cas}
use air_dap.Ownership.Calls.{
  release, operation_begin, claim_failure_result, release_pins_to, started,
}
use air_dap.Ownership.System.{Memory, System, Action, swaps, misses, boot, Reach, here, next}
use air_dap.Ownership.System.Exclusion.{Step-word}
use air_dap.Prelude.{ℕ, ◌≤◌, ◌<◌, ◌≡◌, ◌≢◌, refl, subst, arith, true, false, Option, some}

Reach-append : {s t u : System} → Reach s t → Reach t u → Reach s u
Reach-append r here = r
Reach-append r (next q st) = next (Reach-append r q) st

Reach-generation :
    {s t : System}
    → Reach boot s
    → Reach s t
    → control_generation s.control ≤ control_generation t.control
Reach-generation r here = omega arith
Reach-generation r (next {t = t} {u = u} q st) =
    omega (arith, Reach-generation r q, Step-word t u (Reach-append r q) st)

-- A strong exchange that cannot hit.
cas-miss :
    {A : Type 0} {m m' : Memory} {e d : ℕ} {p p' : Program A} {q : ℕ → Program A}
    → Action m (cas e d p q) m' p'
    → m.control ≢ e
    → (m' ≡ m) × (p' ≡ q m.control)
cas-miss (swaps h) n = absurd (n h)
cas-miss (misses h) n = (refl, refl)

claim_failure_result-ne-ok : (control : ℕ) (claim : Claim) → claim_failure_result control claim ≢ ok
unfolding claim_failure_result
claim_failure_result-ne-ok control claim e = ground arith

-- The word that a claim of an older generation expects is gone.
stale-ne :
    (claim : Claim) (control : ℕ)
    → valid_claim (some claim) ≡ true
    → claim.generation < control_generation control
    → control ≢ make_control claim.generation claim.owner
unfolding valid_claim is_owner
stale-ne claim control valid old e =
    ground (arith, make_control_fields claim.generation claim.owner)

release-cas :
    (claim : Claim)
    → valid_claim (some claim) ≡ true
    → release (some claim)
      ≡ cas
          (make_control claim.generation claim.owner)
          (make_control claim.generation state_transition)
          (release_pins_to claim.generation owner_none ret)
          (λ observed. ret (claim_failure_result observed claim))
unfolding release
release-cas claim valid = rw valid

operation_begin-cas :
    (claim : Claim) (operation : Operation)
    → valid_claim (some claim) ≡ true
    → operation.active ≡ false
    → operation_begin (some claim) (some operation)
      ≡ cas
          (make_control claim.generation claim.owner)
          (set_active (make_control claim.generation claim.owner))
          (ret (ok, started claim.owner claim.generation))
          (λ observed. ret (claim_failure_result observed claim, some operation))
unfolding operation_begin
operation_begin-cas claim operation valid idle = rw (valid, idle)

-- Once the generation has moved past a claim that is valid in form, no later state of the system lets
-- the claim release the port: the exchange of the call fails, changes nothing, and the call returns a
-- result other than OK.
pub stale_claim_refused :
    (s t : System) (claim : Claim) (m : Memory) (p : Program Result)
    → Reach boot s
    → Reach s t
    → valid_claim (some claim) ≡ true
    → claim.generation < control_generation s.control
    → Action t.memory (release (some claim)) m p
    → (m ≡ t.memory) × (r : Result) × (p ≡ ret r) × (r ≢ ok)
stale_claim_refused s t claim m p r q valid old a =
    let a' = subst (λ (x : Program Result). Action t.memory x m p) (release-cas claim valid) a in
    let (same, next_p) =
      cas-miss a' (stale-ne claim t.control valid (omega (arith, Reach-generation r q))) in
    (same, claim_failure_result t.control claim, next_p, claim_failure_result-ne-ok t.control claim)

-- Once the generation has moved past a claim that is valid in form, no later state of the system lets
-- the claim start an operation that is not active yet: the exchange of the call fails, changes nothing,
-- and the call returns a result other than OK, with the operation as it was.
pub stale_claim_starts_nothing :
    (s t : System) (claim : Claim) (operation : Operation) (m : Memory)
    (p : Program (Result × Option Operation))
    → Reach boot s
    → Reach s t
    → valid_claim (some claim) ≡ true
    → operation.active ≡ false
    → claim.generation < control_generation s.control
    → Action t.memory (operation_begin (some claim) (some operation)) m p
    → (m ≡ t.memory) × (r : Result) × (p ≡ ret (r, some operation)) × (r ≢ ok)
stale_claim_starts_nothing s t claim operation m p r q valid idle old a =
    let a' =
      subst (λ (x : Program (Result × Option Operation)). Action t.memory x m p)
        (operation_begin-cas claim operation valid idle) a in
    let (same, next_p) =
      cas-miss a' (stale-ne claim t.control valid (omega (arith, Reach-generation r q))) in
    (same, claim_failure_result t.control claim, next_p, claim_failure_result-ne-ok t.control claim)
