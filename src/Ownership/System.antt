-- ===== src/Ownership/System.antt =====
-- Threads that call the arbiter of firmware/components/dap_ownership in any order, with any arguments,
-- their atomic actions interleaved in any way; the backend may succeed or fail at each call.
pub mod Invariant
pub mod Exclusion
pub mod Claims
pub mod Solo
use air_dap.Ownership.Word.{Result, ok, Claim, Operation, state_uninitialized}
use air_dap.Ownership.Program.{
  Program, ret, load, store, cas, cas_weak, line_reset, release_pins, install, map,
}
use air_dap.Ownership.Calls.{
  Backend, initialize, current, acquire, release, operation_begin, control_begin, operation_end,
}
use air_dap.Ownership.Revocation.{revoke, revoke_owner, suspend, resume}
use air_dap.Prelude.{ℕ, ◌≡◌, ◌≢◌, Bool, true, false, Option, ◌==◌, if◌then◌else◌}

-- The static variables of the source.
pub record Memory : Type 0 where
  pub control : ℕ
  pub installed : Bool

-- What a call returns: its result, or what its output pointer points to.
pub data Reply : Type 0 where
  replied : Result → Reply
  owned : ℕ → Reply
  claimed : Result × Option Claim → Reply
  began : Result × Option Operation → Reply
  finished : Option Operation → Reply

-- The functions of the header, with the fuel of their loops.
pub data Call : Type 0 where
  calls_initialize : Option Backend → Call
  calls_current : Call
  calls_acquire : ℕ → Option Claim → Call
  calls_release : Option Claim → Call
  calls_operation_begin : Option Claim → Option Operation → Call
  calls_control_begin : ℕ → Option Operation → Call
  calls_operation_end : Option Operation → Call
  calls_revoke : Call
  calls_revoke_owner : ℕ → Call
  calls_suspend : ℕ → Call
  calls_resume : ℕ → Call

unfoldable pub start : Call → Program Reply
start (calls_initialize backend) = map replied (initialize backend)
start calls_current = map owned current
start (calls_acquire owner claim) = map claimed (acquire owner claim)
start (calls_release claim) = map replied (release claim)
start (calls_operation_begin claim operation) = map began (operation_begin claim operation)
start (calls_control_begin owner operation) = map began (control_begin owner operation)
start (calls_operation_end operation) = map finished (operation_end operation)
start calls_revoke = map replied revoke
start (calls_revoke_owner owner) = map replied (revoke_owner owner)
start (calls_suspend fuel) = map replied (suspend fuel)
start (calls_resume fuel) = map replied (resume fuel)

-- One atomic action of one thread.
pub data Action {A : Type 0} (m : Memory) : Program A → Memory → Program A → Type 0 where
  loads : {k : ℕ → Program A} → Action m (load k) m (k m.control)
  stores : {v : ℕ} {p : Program A} → Action m (store v p) (record m { control = v }) p
  swaps :
      {e d : ℕ} {p : Program A} {q : ℕ → Program A}
      → m.control ≡ e
      → Action m (cas e d p q) (record m { control = d }) p
  misses :
      {e d : ℕ} {p : Program A} {q : ℕ → Program A}
      → m.control ≢ e
      → Action m (cas e d p q) m (q m.control)
  swaps_weak :
      {e d : ℕ} {p : Program A} {q : ℕ → Program A}
      → m.control ≡ e
      → Action m (cas_weak e d p q) (record m { control = d }) p
  misses_weak :
      {e d : ℕ} {p : Program A} {q : ℕ → Program A} → Action m (cas_weak e d p q) m (q m.control)
  resets : {k : Bool → Program A} (done : Bool) → Action m (line_reset k) m (k done)
  frees : {k : Bool → Program A} (done : Bool) → Action m (release_pins k) m (k done)
  installs : {p : Program A} → Action m (install p) (record m { installed = true }) p

pub record System : Type 0 where
  pub memory : Memory
  pub open memory use *
  pub thread : ℕ → Program Reply

abbrev pub update {ℓ} : {A : Type ℓ} → (ℕ → A) → ℕ → A → ℕ → A
update f i a j = if j == i then a else f j

pub data Step (s : System) : System → Type 0 where
  acts :
      (i : ℕ) {m : Memory} {p : Program Reply}
      → Action s.memory (s.thread i) m p
      → Step s (record { memory = m; thread = update s.thread i p })
  -- A thread whose last call has returned makes another.
  calls :
      (i : ℕ) (r : Reply) (c : Call)
      → s.thread i ≡ ret r
      → Step s (record { memory = s.memory; thread = update s.thread i (start c) })

abbrev pub boot : System
boot = record {
  memory = record { control = state_uninitialized; installed = false };
  thread = λ _. ret (replied ok);
}

pub data Reach (s : System) : System → Type 0 where
  here : Reach s s
  next : {t u : System} → Reach s t → Step t u → Reach s u
