-- ===== src/Ownership/Examples.antt =====
-- The theorems of the arbiter at concrete words, claims and runs.
use air_dap.Ownership.Word.{
  Result, ok, busy, Claim, Operation, IsWord, is_owner, control_state, control_generation,
  is_active, make_control, set_active, clear_active, valid_claim, state_transition, state_suspended,
  owner_none, owner_usb, zero_claim, generation_max,
}
use air_dap.Ownership.Program.{ret, map, install, store}
use air_dap.Ownership.Calls.{
  initialize, acquire, acquire_from, acquire_won, release, release_pins_to, operation_begin,
  control_begin, operation_end, claim_of, started, ended, claim_failure_result,
}
use air_dap.Ownership.Revocation.{revoke, revoke_owner, suspend, resume}
use air_dap.Ownership.System.{
  System, Memory, Reply, replied, claimed, Action, swaps, misses, Step, acts, calls, Reach, here,
  next, boot, Call, start, calls_initialize, calls_acquire, calls_release, update,
}
use air_dap.Ownership.System.Exclusion.{critical, port_exclusive, transition_held, Step-word}
use air_dap.Ownership.System.Claims.{stale_claim_refused}
use air_dap.Ownership.System.Solo.{Returns, call-Returns, Reach-trans}
use air_dap.Ownership.Alone.{Answers, run}
use air_dap.Ownership.Alone.Lifecycle.{lifecycle}
use air_dap.Ownership.Alone.Blocking.{operation_blocks, suspend-resume}
use air_dap.Prelude.{
  ℕ, ◌+◌, ◌<◌, ◌≤◌, ◌≡◌, ◌≢◌, ◌⊎◌, inl, refl, arith, some, true, false, subst, sym, ◌∷◌, [],
}

abbrev willing : Answers
willing = record { resets = true; frees = true; spurious = true ∷ false ∷ [] }

abbrev initialization : Call
initialization = calls_initialize (some (record { has_line_reset = true; has_release_pins = true }))

-- Thread 0 has called `airdap_dap_ownership_initialize` and exchanged the word.
abbrev claiming : System
claiming = record { memory = boot.memory; thread = update boot.thread 0 (start initialization) }

abbrev initializing : System
initializing = record {
  memory = record { control = state_transition; installed = false };
  thread = update claiming.thread 0 (install (store owner_none (ret (replied ok))));
}

initializing-Step : Step claiming initializing
unfolding start map initialize
initializing-Step = acts 0 (swaps refl)

claiming-Reach : Reach boot claiming
claiming-Reach = next here (calls 0 (replied ok) initialization refl)

initializing-Reach : Reach boot initializing
initializing-Reach = next claiming-Reach initializing-Step

port_exclusive_example :
    (◌≡◌ {A = ℕ} 0 0)
    × (control_state initializing.control ≡ state_transition)
    × (is_active initializing.control ≡ false)
port_exclusive_example = port_exclusive initializing 0 0 initializing-Reach refl refl

in_transition : control_state initializing.control ≡ state_transition
unfolding control_state
in_transition = refl

transition_held_example : (i : ℕ) × (critical (initializing.thread i) ≡ true)
transition_held_example = transition_held initializing initializing-Reach in_transition

Step-word_example :
    (control_generation claiming.control ≤ control_generation initializing.control)
    × (is_owner (control_state initializing.control) ≡ true
        → (control_state initializing.control ≡ control_state claiming.control)
          ⊎ (control_generation initializing.control ≡ control_generation claiming.control + 1))
    × (is_active claiming.control ≡ true
        → (initializing.control ≡ claiming.control)
          ⊎ (initializing.control ≡ clear_active claiming.control))
Step-word_example = Step-word claiming initializing claiming-Reach initializing-Step

initialized : Returns boot 0 (replied ok) 0
unfolding start map initialize run
initialized = call-Returns boot willing 0 (replied ok) (replied ok) 0 initialization refl refl

-- One more call of thread 0.
continue :
    {a : Reply} {c : ℕ} (o : Returns boot 0 a c) (r : Reply) (v : ℕ) (call : Call)
    → run willing (start call) c ≡ (some r, v)
    → Returns boot 0 r v
continue {a} o r v call h =
    let n =
      call-Returns o.after willing 0 a r v call o.returned
        (subst (λ (x : ℕ). run willing (start call) x ≡ (some r, v)) (sym o.word) h) in
    record {
      after = n.after;
      path = Reach-trans o.path n.path;
      returned = n.returned;
      word = n.word;
    }

abbrev first_claim : Claim
first_claim = claim_of owner_usb 1

acquired : Returns boot 0 (claimed (ok, some first_claim)) 17
unfolding start map acquire acquire_from acquire_won is_owner control_state control_generation
    is_active make_control run
acquired =
    continue initialized (claimed (ok, some first_claim)) 17
      (calls_acquire owner_usb (some zero_claim)) refl

released : Returns boot 0 (replied ok) 16
unfolding start map release release_pins_to valid_claim is_owner make_control run
released = continue acquired (replied ok) 16 (calls_release (some first_claim)) refl

acquired_again : Returns boot 0 (claimed (ok, some (claim_of owner_usb 2))) 33
unfolding start map acquire acquire_from acquire_won is_owner control_state control_generation
    is_active make_control run
acquired_again =
    continue released (claimed (ok, some (claim_of owner_usb 2))) 33
      (calls_acquire owner_usb (some zero_claim)) refl

first_claim-valid : valid_claim (some first_claim) ≡ true
unfolding valid_claim is_owner
first_claim-valid = refl

first_claim-stale : first_claim.generation < control_generation acquired_again.after.control
unfolding control_generation
first_claim-stale = omega (arith, acquired_again.word)

abbrev now : Memory
now = acquired_again.after.memory

refused_release :
    Action now (release (some first_claim)) now (ret (claim_failure_result now.control first_claim))
unfolding release valid_claim is_owner make_control
refused_release = misses (omega (arith, acquired_again.word))

stale_claim_refused_example :
    (now ≡ now)
    × (r : Result) × (ret (claim_failure_result now.control first_claim) ≡ ret r)
    × (r ≢ ok)
stale_claim_refused_example =
    stale_claim_refused acquired_again.after acquired_again.after first_claim now
      (ret (claim_failure_result now.control first_claim)) acquired_again.path here
      first_claim-valid first_claim-stale refused_release

abbrev idle : Operation
idle = record { owner = 0; generation = 0; active = false }

refused_operation :
    Action now
      (operation_begin (some first_claim) (some idle))
      now
      (ret (claim_failure_result now.control first_claim, some idle))
unfolding operation_begin valid_claim is_owner make_control
refused_operation = misses (omega (arith, acquired_again.word))

owner_usb-is_owner : is_owner owner_usb ≡ true
unfolding is_owner
owner_usb-is_owner = refl

-- Generation 1, no owner.
free_state : control_state 16 ≡ owner_none
unfolding control_state
free_state = refl

free_idle : is_active 16 ≡ false
unfolding is_active
free_idle = refl

free_generation : control_generation 16 < generation_max
unfolding control_generation
free_generation = omega arith

lifecycle_example :
    let g = control_generation 16 + 1 in
    let claim = claim_of owner_usb g in
    let held = make_control g owner_usb in
    (run willing (acquire owner_usb (some zero_claim)) 16 ≡ (some (ok, some claim), held))
    × (run willing (operation_begin (some claim) (some idle)) held
        ≡ (some (ok, started owner_usb g), set_active held))
    × (run willing (operation_end (started owner_usb g)) (set_active held) ≡ (some ended, held))
    × (run willing (release (some claim)) held ≡ (some ok, make_control g owner_none))
lifecycle_example =
    lifecycle willing owner_usb 16 zero_claim idle owner_usb-is_owner free_state free_idle
      free_generation refl refl

-- Generation 1, USB, an operation running.
running-IsWord : IsWord 25
unfolding control_state
running-IsWord = record { fits = omega arith; idle = λ _. omega arith }

running-active : is_active 25 ≡ true
unfolding is_active
running-active = refl

operation_blocks_example :
    ((run willing (acquire owner_usb (some zero_claim)) 25).1 ≡ 25)
    × ((run willing (release (some zero_claim)) 25).1 ≡ 25)
    × ((run willing (operation_begin (some zero_claim) (some idle)) 25).1 ≡ 25)
    × ((run willing (control_begin owner_usb (some idle)) 25).1 ≡ 25)
    × ((run willing revoke 25).1 ≡ 25)
    × ((run willing (revoke_owner owner_usb) 25).1 ≡ 25)
    × (run willing (suspend 1) 25 ≡ (some busy, 25))
operation_blocks_example =
    operation_blocks willing 25 owner_usb 0 (some zero_claim) (some idle) running-IsWord
      running-active

free-IsWord : IsWord 16
unfolding control_state
free-IsWord = record { fits = omega arith; idle = λ _. omega arith }

suspend-resume_example :
    let suspended = make_control (control_generation 16) state_suspended in
    (run willing (suspend 3) 16 ≡ (some ok, suspended))
    × (run willing (acquire owner_usb (some zero_claim)) suspended
        ≡ (some (busy, some zero_claim), suspended))
    × (run willing (resume 3) suspended
        ≡ (some ok, make_control (control_generation 16) owner_none))
suspend-resume_example =
    suspend-resume willing 16 owner_usb 2 zero_claim free-IsWord (omega arith) free_idle
      owner_usb-is_owner (inl free_state) (inl free_state)
