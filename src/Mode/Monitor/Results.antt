-- ===== src/Mode/Monitor/Results.antt =====
-- What the calls of firmware/components/mode_state/mode_state.c that admit a client can return.
use air_dap.Ownership.Program.{Program}
use air_dap.Ownership.Word.{owner_network, Result, Claim, Operation}
use air_dap.Ownership.Calls.{operation_begin, control_begin, operation_end, is_running}
use air_dap.Mode.Program.{ModeProgram, returns, load_mode, arbiter, after}
use air_dap.Mode.Calls.{
  DapResult, is_allowed, dap_policy, dap_admission_for_control, ownership_result,
}
use air_dap.Mode.Calls.Admission.{
  latest_result, dap_acquire, operation_settle, same_stamp, control_operation_begin,
  dap_operation_begin,
}
use air_dap.Mode.Monitor.{Seen, Yields}
use air_dap.Prelude.{
  ℕ, ◌≡◌, sym, refl, ◌∙◌, Bool, true, false, not, ◌||◌, Option, none, some, is_some, arith,
  if◌then◌else◌,
}
use air_dap.Ownership.Calls.{claim_failure_result, control_begin_from}
use air_dap.Mode.Monitor.Weaken.{Obeys-weaken}
use air_dap.Mode.Calls.Admission.{state_dap_acquire}
use air_dap.Mode.Monitor.Calm.{
  latest_result_lem, Calm, Calm-after, Calm-load, Calm-ask, Calm-if, Refused, Refuses,
  admission-Calm, dap_acquire-Calm,
}

-- `operation_end` ends an operation whatever it finds.
operation_end-ends :
    (operation : Option Operation) → Yields (λ r. is_running r ≡ false) (operation_end operation)
unfolding operation_end
operation_end-ends none = refl
operation_end-ends (some operation) = ground arith

-- The monitor that permits everything: every path is followed for its result alone.
abbrev PermitsAll : Bool → Seen → Type 0
PermitsAll s e = Unit

abbrev stays : Bool → Seen → Bool
stays s e = s

-- Every path of the program ends in a result that satisfies `P`.
abbrev pub Results : {A : Type 0} → (A → Type 0) → ModeProgram A → Type 0
Results P p = Calm PermitsAll stays true tt refl tt refl P p

module _ {A B : Type 0} (P : A → Type 0) (Q : B → Type 0) where
  Results-after :
      (f : A → ModeProgram B) (p : ModeProgram A)
      → Results P p
      → ((a : A) → P a → Results Q (f a))
      → Results Q (after p f)
  Results-after = Calm-after PermitsAll stays true tt refl tt refl P Q

  Results-ask :
      (f : A → ModeProgram B) (p : Program A)
      → Yields P p
      → ((a : A) → P a → Results Q (f a))
      → Results Q (arbiter p f)
  Results-ask = Calm-ask PermitsAll stays true tt refl tt refl P Q

module _ {A : Type 0} (P : A → Type 0) where
  Results-load : (k : ℕ → ModeProgram A) → ((v : ℕ) → Results P (k v)) → Results P (load_mode k)
  Results-load = Calm-load PermitsAll stays true tt refl tt refl P

  Results-if :
      (b : Bool) (p q : ModeProgram A)
      → (b ≡ true → Results P p)
      → (b ≡ false → Results P q)
      → Results P (if b then p else q)
  Results-if = Calm-if PermitsAll stays true tt refl tt refl P

Results-weaken :
    {A : Type 0} (P Q : A → Type 0) (p : ModeProgram A)
    → Results P p
    → ((a : A) → P a → Q a)
    → Results Q p
Results-weaken P Q p h k =
    Obeys-weaken PermitsAll stays (λ t a. (t ≡ true) × P a) (λ t a. (t ≡ true) × Q a) true p h
      (λ t a g. (g.0, k a g.1))

-- A result of the arbiter that comes with a running operation exactly where it admits.
abbrev Started : Result × Option Operation → Type 0
Started out = is_running out.1 ≡ is_allowed (ownership_result out.0)

claim_failure_result-Refuses :
    (control : ℕ) (claim : Claim)
    → is_allowed (ownership_result (claim_failure_result control claim)) ≡ false
unfolding claim_failure_result ownership_result
claim_failure_result-Refuses control claim = ground arith

operation_begin-Started :
    (claim : Option Claim) (operation : Option Operation)
    → is_running operation ≡ false
    → Yields Started (operation_begin claim operation)
unfolding operation_begin ownership_result
operation_begin-Started claim operation idle = grind (arith, claim_failure_result-Refuses)

control_begin-Started :
    (owner : ℕ) (operation : Option Operation)
    → is_running operation ≡ false
    → Yields Started (control_begin owner operation)
unfolding control_begin control_begin_from ownership_result
control_begin-Started owner operation idle = ground arith

-- Operations: the reservation runs exactly where the result is `allowed`.
module _ (owner : ℕ) (authenticated board_control : Bool) where
  abbrev pub Settled : DapResult × Option Operation → Type 0
  Settled out =
      (is_running out.1 ≡ is_allowed out.0) × Refuses owner authenticated board_control out.0

  admission-Results :
      (control : ℕ)
      → Results
          (Refuses owner authenticated board_control)
          (dap_admission_for_control control owner authenticated board_control)
  admission-Results =
      admission-Calm PermitsAll stays true tt refl tt refl owner authenticated board_control

  operation_settle-Results :
      (unchanged : ℕ → Bool) (out : Result × Option Operation)
      → ¬ Refused owner authenticated board_control
      → Started out
      → Results Settled (
          operation_settle unchanged
            (λ control. dap_admission_for_control control owner authenticated board_control)
            out)
  unfolding operation_settle
  operation_settle-Results unchanged (begun, operation) never h =
      Results-if Settled (not (is_allowed (ownership_result begun))) _ _
        (λ e. (refl, (h, λ g. absurd (never g))))
        λ e. Results-load Settled _ λ control.
          Results-if Settled (unchanged control) _ _
            (λ _. (refl, (running e, λ g. absurd (never g))))
            (λ _.
              Results-ask (λ r. is_running r ≡ false) Settled _ _ (operation_end-ends operation)
                (again control))
    where
      running : not (is_allowed (ownership_result begun)) ≡ false → is_running operation ≡ true
      running e = ground (arith, e, h)

      again :
          (control : ℕ) (ended : Option Operation)
          → is_running ended ≡ false
          → Results Settled (
              after
                (dap_admission_for_control control owner authenticated board_control)
                (λ latest. returns (latest_result latest, ended)))
      again control ended over =
          Results-after (Refuses owner authenticated board_control) Settled _ _
            (admission-Results control)
            (λ r _. (refl, (over ∙ sym (latest_result_lem r), λ _. latest_result_lem r)))

  -- An admission, and the operation that begins after it.
  begin-Results :
      (control : ℕ) (operation : Option Operation) (p : Program (Result × Option Operation))
      (f : Result × Option Operation → ModeProgram (DapResult × Option Operation))
      → is_running operation ≡ false
      → Yields Started p
      → (¬ Refused owner authenticated board_control
          → (out : Result × Option Operation) → Started out
          → Results Settled (f out))
      → Results Settled (
          after (dap_admission_for_control control owner authenticated board_control) (λ result.
            if not (is_allowed result) then returns (result, operation) else arbiter p f))
  begin-Results control operation p f idle begins h =
      Results-after (Refuses owner authenticated board_control) Settled _ _
        (admission-Results control)
        λ r g.
          Results-if Settled (not (is_allowed r)) _ _ (λ e. (refl, (denied r e, g)))
            (λ e. Results-ask Started Settled f p begins (h (never r g e)))
    where
      denied : (r : DapResult) → not (is_allowed r) ≡ true → is_running operation ≡ is_allowed r
      denied r e = ground (arith, e, idle)

      never :
          (r : DapResult)
          → Refuses owner authenticated board_control r
          → not (is_allowed r) ≡ false
          → ¬ Refused owner authenticated board_control
      never r g e k = absurd (ground (arith, e, g k))

operation_begin-Settled :
    (owner : ℕ) (authenticated : Bool) (claim : Option Claim) (operation : Option Operation)
    → is_running operation ≡ false
    → Results
        (Settled owner authenticated false)
        (dap_operation_begin owner authenticated claim operation)
      × Results
          (Settled owner_network authenticated true)
          (control_operation_begin authenticated operation)
unfolding dap_operation_begin control_operation_begin
operation_begin-Settled owner authenticated claim operation idle = (
  Results-if (Settled owner authenticated false) (not (is_some claim) || not (is_some operation)) _
      _ (λ _. (refl, (idle, λ _. refl)))
      (λ _. Results-load (Settled owner authenticated false) _ λ before.
        begin-Results owner authenticated false before operation _ _ idle
          (operation_begin-Started claim operation idle)
          (λ never out h.
            operation_settle-Results owner authenticated false (same_stamp owner before) out never
              h)),
  Results-if (Settled owner_network authenticated true) (not (is_some operation)) _ _
      (λ _. (refl, (idle, λ _. refl)))
      (λ _. Results-load (Settled owner_network authenticated true) _ λ before.
        begin-Results owner_network authenticated true before operation _ _ idle
          (control_begin-Started owner_network operation idle)
          (λ never out h. operation_settle-Results owner_network authenticated true _ out never h)),
)

-- A reservation that runs exactly where the result is `allowed`.
abbrev pub RunsIfAllowed : DapResult × Option Operation → Type 0
RunsIfAllowed out = is_running out.1 ≡ is_allowed out.0

-- On every path of the two functions that begin an operation, whatever other threads do to the mode
-- word, to the arbiter's word and to its backend meanwhile, the caller's operation, idle before, runs
-- afterwards exactly where the result is `allowed`: an operation that had begun when the policy changed
-- is ended again.
pub operation_begin_reserves :
    (owner : ℕ) (authenticated : Bool) (claim : Option Claim) (operation : Option Operation)
    → is_running operation ≡ false
    → Results RunsIfAllowed (dap_operation_begin owner authenticated claim operation)
      × Results RunsIfAllowed (control_operation_begin authenticated operation)
operation_begin_reserves owner authenticated claim operation idle = (
  Results-weaken (Settled owner authenticated false) RunsIfAllowed
      (dap_operation_begin owner authenticated claim operation)
      (operation_begin-Settled owner authenticated claim operation idle).0 (λ out h. h.0),
  Results-weaken (Settled owner_network authenticated true) RunsIfAllowed
      (control_operation_begin authenticated operation)
      (operation_begin-Settled owner authenticated claim operation idle).1 (λ out h. h.0),
)

-- The policy refuses the network without authentication.
unauthenticated-Refused : (board_control : Bool) → Refused owner_network false board_control
unfolding dap_policy
unauthenticated-Refused board_control c = ground arith

-- A result that admits nobody.
abbrev pub Denied : {A : Type 0} → DapResult × A → Type 0
Denied out = is_allowed out.0 ≡ false

module _ (owner : ℕ) (authenticated board_control : Bool)
    (no : Refused owner authenticated board_control) where
  -- An admission that refuses is the end of a `begin`, whatever would come after it.
  begin-Denied :
      (control : ℕ) (operation : Option Operation)
      (next : ModeProgram (DapResult × Option Operation))
      → Results Denied (
          after
            (dap_admission_for_control control owner authenticated board_control)
            (λ result. if not (is_allowed result) then returns (result, operation) else next))
  begin-Denied control operation next =
      Results-after (Refuses owner authenticated board_control) Denied _ _
        (admission-Results owner authenticated board_control control)
        λ r g.
          Results-if Denied (not (is_allowed r)) _ _ (λ _. (refl, g no))
            (λ e. absurd (ground (arith, e, g no)))

dap_operation_begin-Denied :
    (claim : Option Claim) (operation : Option Operation)
    → Results Denied (dap_operation_begin owner_network false claim operation)
unfolding dap_operation_begin
dap_operation_begin-Denied claim operation =
    Results-if Denied (not (is_some claim) || not (is_some operation)) _ _ (λ _. (refl, refl))
      (λ _. Results-load Denied _ λ before.
        begin-Denied owner_network false false (unauthenticated-Refused false) before operation _)

control_operation_begin-Denied :
    (operation : Option Operation) → Results Denied (control_operation_begin false operation)
unfolding control_operation_begin
control_operation_begin-Denied operation =
    Results-if Denied (not (is_some operation)) _ _ (λ _. (refl, refl))
      (λ _. Results-load Denied _ λ before.
        begin-Denied owner_network false true (unauthenticated-Refused true) before operation _)

-- A network client that has not authenticated is told `allowed` on no path of the functions that take
-- the port, begin an operation on it or begin a board control, whatever the modes, its claim, the
-- operation it passes, running or not, and the answers of the arbiter are.
pub unauthenticated-Denied :
    (claim : Option Claim) (operation : Option Operation)
    → Results Denied (state_dap_acquire owner_network false claim)
      × Results Denied (dap_operation_begin owner_network false claim operation)
      × Results Denied (control_operation_begin false operation)
unfolding state_dap_acquire
unauthenticated-Denied claim operation = (
  Results-weaken (λ out. Refuses owner_network false false out.0) Denied
      (dap_acquire owner_network false claim)
      (dap_acquire-Calm PermitsAll stays true tt refl tt refl owner_network false claim)
      (λ out h. h (unauthenticated-Refused false)),
  dap_operation_begin-Denied claim operation,
  control_operation_begin-Denied operation,
)
