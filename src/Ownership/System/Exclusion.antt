-- ===== src/Ownership/System/Exclusion.antt =====
-- Who may touch the debug port, in every state that the threads can reach.
use air_dap.Ownership.Word.{
  state_transition, control_state, control_generation, is_active, clear_active, is_owner,
}
use air_dap.Ownership.Program.{
  Program, ret, load, store, cas, cas_weak, line_reset, release_pins, install, out_of_fuel,
}
use air_dap.Ownership.Typing.{Mode, free, holding, Disciplined}
use air_dap.Ownership.System.{System, Step, acts, calls, boot, Reach}
use air_dap.Ownership.System.Invariant.{
  Effect, rests, takes, keeps, settles, Action-Effect, Inv, Reach-Inv,
}
use air_dap.Prelude.{ℕ, ◌+◌, ◌≤◌, ◌≡◌, ◌⊎◌, inl, refl, arith, Bool, true, false, subst}

-- The next action drives the port, replaces the backend, or stores the outcome of doing so.
abbrev pub critical : {A : Type 0} → Program A → Bool
critical (line_reset k) = true
critical (release_pins k) = true
critical (store v p) = true
critical (install p) = true
critical _ = false

critical-holding :
    {A : Type 0} (p : Program A) (m : Mode)
    → Disciplined p m
    → critical p ≡ true
    → (g : ℕ) × (m ≡ holding g)
critical-holding p (holding g) d c = (g, refl)
critical-holding (ret a) free d c = absurd (cc)
critical-holding (load k) free d c = absurd (cc)
critical-holding (cas e x p q) free d c = absurd (cc)
critical-holding (cas_weak e x p q) free d c = absurd (cc)
critical-holding out_of_fuel free d c = absurd (cc)
critical-holding (store v p) free d c = absurd d
critical-holding (line_reset k) free d c = absurd d
critical-holding (release_pins k) free d c = absurd d
critical-holding (install p) free d c = absurd d

holding-critical :
    {A : Type 0} (p : Program A) (g : ℕ) → Disciplined p (holding g) → critical p ≡ true
holding-critical (ret a) g d = absurd d
holding-critical (load k) g d = absurd d
holding-critical (cas e x p q) g d = absurd d
holding-critical (cas_weak e x p q) g d = absurd d
holding-critical out_of_fuel g d = absurd d
holding-critical (store v p) g d = refl
holding-critical (line_reset k) g d = refl
holding-critical (release_pins k) g d = refl
holding-critical (install p) g d = refl

-- However the threads run, at most one of them is about to drive the port, to replace the backend or to
-- store the outcome, and while one is, the word shows the transition state and no running operation.
pub port_exclusive :
    (s : System) (i j : ℕ)
    → Reach boot s
    → critical (s.thread i) ≡ true
    → critical (s.thread j) ≡ true
    → (i ≡ j) × (control_state s.control ≡ state_transition) × (is_active s.control ≡ false)
port_exclusive s i j r ci cj =
    let inv = Reach-Inv r in
    let (g, hi) = critical-holding (s.thread i) (inv.mode i) (inv.disciplined i) ci in
    let (h, hj) = critical-holding (s.thread j) (inv.mode j) (inv.disciplined j) cj in
    (inv.single i j g h hi hj, (inv.holder i g hi).0, (inv.holder i g hi).2)

-- The transition state is never left behind: while the word shows it, some thread is about to drive the
-- port, to replace the backend or to store the state that follows.
pub transition_held :
    (s : System)
    → Reach boot s
    → control_state s.control ≡ state_transition
    → (i : ℕ) × (critical (s.thread i) ≡ true)
transition_held s r t =
    let inv = Reach-Inv r in
    let (i, g, e) = inv.covered t in
    (i, holding-critical (s.thread i) g (subst (Disciplined (s.thread i)) e (inv.disciplined i)))

Effect-word :
    (s : System) (inv : Inv s) (i c : ℕ) (m m' : Mode)
    → inv.mode i ≡ m
    → Effect s.control c m m'
    → (control_generation s.control ≤ control_generation c)
      × (is_owner (control_state c) ≡ true
          → (control_state c ≡ control_state s.control)
            ⊎ (control_generation c ≡ control_generation s.control + 1))
      × (is_active s.control ≡ true → (c ≡ s.control) ⊎ (c ≡ clear_active s.control))
unfolding is_owner
Effect-word s inv i c m m' e (rests same) = rw same (omega arith, λ _. inl refl, λ _. inl refl)
Effect-word s inv i c m m' e (takes {g} t q) = ground arith
Effect-word s inv i c m m' e (keeps k) = ground arith
Effect-word s inv i c m m' e (settles {g} st) = ground (arith, inv.holder i g)

Action-word :
    {s t : System}
    → Step s t
    → Inv s
    → (control_generation s.control ≤ control_generation t.control)
      × (is_owner (control_state t.control) ≡ true
          → (control_state t.control ≡ control_state s.control)
            ⊎ (control_generation t.control ≡ control_generation s.control + 1))
      × (is_active s.control ≡ true
          → (t.control ≡ s.control) ⊎ (t.control ≡ clear_active s.control))
Action-word {s} (acts i {m = m} a) inv =
    let (mode', d, e) = Action-Effect a inv.word (inv.mode i) (inv.disciplined i) in
    Effect-word s inv i m.control (inv.mode i) mode' refl e
Action-word (calls i r c e) inv = (omega arith, λ _. inl refl, λ _. inl refl)

-- What one action of any thread may do to the word: the generation never falls; an owner comes in only
-- with the next generation; and while an operation runs nothing but the end of that operation changes
-- the word, so the owner is stable until then.
pub Step-word :
    (s t : System)
    → Reach boot s
    → Step s t
    → (control_generation s.control ≤ control_generation t.control)
      × (is_owner (control_state t.control) ≡ true
          → (control_state t.control ≡ control_state s.control)
            ⊎ (control_generation t.control ≡ control_generation s.control + 1))
      × (is_active s.control ≡ true
          → (t.control ≡ s.control) ⊎ (t.control ≡ clear_active s.control))
Step-word s t r st = Action-word st (Reach-Inv r)
