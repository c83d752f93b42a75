-- ===== src/Ownership/Typing/Settle.antt =====
-- What the holder of the transition state does keeps to the discipline.
use air_dap.Ownership.Word.{
  owner_none, state_transition, state_offline, generation_max, Result, ok, offline, is_owner,
  make_control, make_control_fields, zero_claim,
}
use air_dap.Ownership.Program.{Program, ret}
use air_dap.Ownership.Calls.{release_pins_to, acquire_won}
use air_dap.Ownership.Typing.{free, holding, Settles, Disciplined, Disciplined-if}
use air_dap.Prelude.{ℕ, ◌+◌, ◌≤◌, ◌<◌, ◌≡◌, ◌≢◌, arith, true, false, not, ◌==◌, refl, some}

Settles-state :
    (g state : ℕ)
    → g ≤ generation_max
    → state < 8
    → state ≢ state_transition
    → is_owner state ≡ false
    → Settles g (make_control g state)
Settles-state g state hg small other no_owner = ground (arith, make_control_fields g state)

Settles-owner :
    (g owner : ℕ)
    → g < generation_max
    → is_owner owner ≡ true
    → Settles g (make_control (g + 1) owner)
unfolding is_owner
Settles-owner g owner hg owned = ground (arith, make_control_fields (g + 1) owner)

-- The pins are released, and the state that follows, or offline, is stored.
pub release_pins_to-Disciplined :
    {A : Type 0} (g state : ℕ) (k : Result → Program A)
    → g ≤ generation_max
    → state < 8
    → state ≢ state_transition
    → is_owner state ≡ false
    → ((r : Result) → Disciplined (k r) free)
    → Disciplined (release_pins_to g state k) (holding g)
unfolding release_pins_to is_owner
release_pins_to-Disciplined g state k hg small other no_owner hk = λ b.
    Disciplined-if (holding g) b _ _ (λ _. (Settles-state g state hg small other no_owner, hk ok))
      (λ _. (Settles-state g state_offline hg (omega arith) (omega arith) refl, hk offline))

pub acquire_won-Disciplined :
    (owner g : ℕ)
    → g ≤ generation_max
    → is_owner owner ≡ true
    → Disciplined (acquire_won owner g) (holding g)
unfolding acquire_won is_owner
acquire_won-Disciplined owner g hg owned =
    Disciplined-if (holding g) (g == generation_max) _ _
      (λ _. (Settles-state g state_offline hg (omega arith) (omega arith) refl, tt))
      λ more b.
        Disciplined-if (holding g) (not b) _ _
          (λ _.
            release_pins_to-Disciplined g owner_none (λ _. ret (offline, some zero_claim)) hg
              (omega arith) (omega arith) refl (λ _. tt))
          (λ _. (Settles-owner g owner (ground arith) owned, tt))
