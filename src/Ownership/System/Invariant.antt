-- ===== src/Ownership/System/Invariant.antt =====
-- What holds between two atomic actions.
use air_dap.Ownership.Word.{state_transition, control_state, control_generation, is_active, IsWord}
use air_dap.Ownership.Program.{Program, ret}
use air_dap.Ownership.Typing.{
  Mode, free, holding, Takes, Keeps, Settles, Disciplined, Disciplined-map,
}
use air_dap.Ownership.Typing.Calls
use air_dap.Ownership.System.{
  Memory, Reply, Call, start, Action, loads, stores, swaps, misses, swaps_weak, misses_weak, resets,
  frees, installs, System, update, Step, acts, calls, boot, Reach, here, next, calls_initialize,
  calls_current, calls_acquire, calls_release, calls_operation_begin, calls_control_begin,
  calls_operation_end, calls_revoke, calls_revoke_owner, calls_suspend, calls_resume,
}
use air_dap.Prelude.{ℕ, ◌≡◌, ◌⊎◌, inl, inr, refl, sym, subst, arith, false, Bool-cases, ◌==◌, ap}

start-Disciplined : (c : Call) → Disciplined (start c) free
unfolding start
start-Disciplined (calls_initialize b) = Disciplined-map _ _ free (Calls.initialize-Disciplined b)
start-Disciplined calls_current = Disciplined-map _ _ free Calls.current-Disciplined
start-Disciplined (calls_acquire o c) = Disciplined-map _ _ free (Calls.acquire-Disciplined o c)
start-Disciplined (calls_release c) = Disciplined-map _ _ free (Calls.release-Disciplined c)
start-Disciplined (calls_operation_begin c o) =
    Disciplined-map _ _ free (Calls.operation_begin-Disciplined c o)
start-Disciplined (calls_control_begin o p) =
    Disciplined-map _ _ free (Calls.control_begin-Disciplined o p)
start-Disciplined (calls_operation_end o) =
    Disciplined-map _ _ free (Calls.operation_end-Disciplined o)
start-Disciplined calls_revoke = Disciplined-map _ _ free Calls.revoke-Disciplined
start-Disciplined (calls_revoke_owner o) =
    Disciplined-map _ _ free (Calls.revoke_owner-Disciplined o)
start-Disciplined (calls_suspend f) = Disciplined-map _ _ free (Calls.suspend-Disciplined f)
start-Disciplined (calls_resume f) = Disciplined-map _ _ free (Calls.resume-Disciplined f)

-- What one action does to the word, by the thread's mode before and after.
pub data Effect (c c' : ℕ) : Mode → Mode → Type 0 where
  rests : {m : Mode} → c' ≡ c → Effect c c' m m
  takes : {g : ℕ} → Takes c c' → g ≡ control_generation c → Effect c c' free (holding g)
  keeps : Keeps c c' → Effect c c' free free
  settles : {g : ℕ} → Settles g c' → Effect c c' (holding g) free

exchange-Effect :
    {A : Type 0} (p : Program A) (c e d : ℕ)
    → c ≡ e
    → IsWord c
    → (IsWord e
        → (Takes e d × Disciplined p (holding (control_generation e)))
          ⊎ (Keeps e d × Disciplined p free))
    → (mode' : Mode) × Disciplined p mode' × Effect c d free mode'
exchange-Effect p c e d q w h = elim (h (subst IsWord q w)) [
  | inl t ↦ (
    holding (control_generation e),
    t.1,
    takes (subst (λ (x : ℕ). Takes x d) (sym q) t.0) (ap control_generation (sym q)),
  )
  | inr t ↦ (free, t.1, keeps (subst (λ (x : ℕ). Keeps x d) (sym q) t.0))
]

-- A disciplined thread stays disciplined.
pub Action-Effect :
    {A : Type 0} {m m' : Memory} {p p' : Program A}
    → Action m p m' p'
    → IsWord m.control
    → (mode : Mode) → Disciplined p mode
    → (mode' : Mode) × Disciplined p' mode' × Effect m.control m'.control mode mode'
Action-Effect {m = m} loads w free d = (free, d m.control w, rests refl)
Action-Effect loads w (holding g) d = absurd d
Action-Effect stores w free d = absurd d
Action-Effect stores w (holding g) d = (free, d.1, settles d.0)
Action-Effect {m = m} (swaps {e = e} {d = d} {p = p} q) w free h =
    exchange-Effect p m.control e d q w h.0
Action-Effect (swaps e) w (holding g) d = absurd d
Action-Effect {m = m} (misses n) w free d = (free, d.1 m.control w, rests refl)
Action-Effect (misses n) w (holding g) d = absurd d
Action-Effect {m = m} (swaps_weak {e = e} {d = d} {p = p} q) w free h =
    exchange-Effect p m.control e d q w h.0
Action-Effect (swaps_weak e) w (holding g) d = absurd d
Action-Effect {m = m} misses_weak w free d = (free, d.1 m.control w, rests refl)
Action-Effect misses_weak w (holding g) d = absurd d
Action-Effect (resets b) w free d = absurd d
Action-Effect (resets b) w (holding g) d = (holding g, d b, rests refl)
Action-Effect (frees b) w free d = absurd d
Action-Effect (frees b) w (holding g) d = (holding g, d b, rests refl)
Action-Effect installs w free d = absurd d
Action-Effect installs w (holding g) d = (holding g, d, rests refl)

pub record Inv (s : System) : Type 0 where
  pub mode : ℕ → Mode
  pub word : IsWord s.control
  pub disciplined : (i : ℕ) → Disciplined (s.thread i) (mode i)
  -- A holder's generation is in the word, with the transition state.
  pub holder :
      (i g : ℕ)
      → mode i ≡ holding g
      → (control_state s.control ≡ state_transition)
        × (control_generation s.control ≡ g)
        × (is_active s.control ≡ false)
  pub single : (i j g h : ℕ) → mode i ≡ holding g → mode j ≡ holding h → i ≡ j
  pub covered :
      control_state s.control ≡ state_transition → (i : ℕ) × (g : ℕ) × (mode i ≡ holding g)

boot-Inv : Inv boot
unfolding control_state is_active
boot-Inv = record {
  mode = λ _. free;
  word = record { fits = omega arith; idle = λ e. cc };
  disciplined = λ _. tt;
  holder = λ i g e. cc;
  single = λ i j g h e f. cc;
  covered = λ e. absurd (omega arith);
}

module _ {s : System} (inv : Inv s) (i : ℕ) where
  open inv use {mode, disciplined, holder, single, covered}

  others-Disciplined :
      (p : Program Reply) (mode' : Mode)
      → Disciplined p mode'
      → (j : ℕ) → Disciplined (update s.thread i p j) (update mode i mode' j)
  others-Disciplined p mode' d j = elim (Bool-cases (j == i)) [
    | inl mover ↦ rw mover d
    | inr other ↦ rw other (disciplined j)
  ]

  Effect-Inv :
      {m : Memory} (p : Program Reply) {old : Mode} (mode' : Mode)
      → Disciplined p mode'
      → Effect s.control m.control old mode'
      → old ≡ mode i
      → Inv (record { memory = m; thread = update s.thread i p })
  Effect-Inv {m} p mode' d (rests same) e = record {
    mode = update mode i mode';
    word = rw same inv.word;
    disciplined = others-Disciplined p mode' d;
    holder = λ j g q. ground (arith, holder j g, holder i g);
    single = λ j k g h q r. ground (arith, single j k g h, single i k g h, single j i g h);
    covered = λ t. let (j, g, q) = covered (rw (sym same) t) in (j, g, ground arith);
  }
  Effect-Inv {m} p mode' d (takes {g} t q) e = record {
    mode = update mode i mode';
    word = t.word;
    disciplined = others-Disciplined p mode' d;
    holder = λ j h r. ground (arith, holder j h);
    single = λ j k h l r u. ground (arith, holder j h, holder k l);
    covered = λ _. (i, g, ground arith);
  }
  Effect-Inv {m} p mode' d (keeps k) e = record {
    mode = update mode i mode';
    word = k.word;
    disciplined = others-Disciplined p mode' d;
    holder = λ j g r. ground (arith, holder j g);
    single = λ j l g h r u. ground (arith, holder j g);
    covered = λ t. absurd (k.to t);
  }
  Effect-Inv {m} p mode' d (settles {g} st) e = record {
    mode = update mode i mode';
    word = st.word;
    disciplined = others-Disciplined p mode' d;
    holder = λ j h r. ground (arith, single i j g h);
    single = λ j k h l r u. ground (arith, single i j g h, single i k g l);
    covered = λ t. absurd (st.to t);
  }

-- A thread whose call has returned holds nothing.
ret-free : (p : Program Reply) (r : Reply) (m : Mode) → p ≡ ret r → Disciplined p m → free ≡ m
ret-free p r free e d = refl
ret-free p r (holding g) e d = absurd (subst (λ (x : Program Reply). Disciplined x (holding g)) e d)

pub Step-Inv : {s t : System} → Step s t → Inv s → Inv t
Step-Inv (acts i {m = m} {p = p} a) inv =
    let (mode', d, e) = Action-Effect a inv.word (inv.mode i) (inv.disciplined i) in
    Effect-Inv inv i {m = m} p mode' d e refl
Step-Inv {s} (calls i r c e) inv =
    Effect-Inv inv i {m = s.memory} (start c) free (start-Disciplined c) (rests refl)
      (ret-free (s.thread i) r (inv.mode i) e (inv.disciplined i))

pub Reach-Inv : {s : System} → Reach boot s → Inv s
Reach-Inv here = boot-Inv
Reach-Inv (next r st) = Step-Inv st (Reach-Inv r)
