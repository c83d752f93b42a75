-- ===== src/Ownership/System/Solo.antt =====
-- A call that no other thread disturbs is one of the histories of the system.
use air_dap.Ownership.Program.{
  Program, ret, load, store, cas, cas_weak, line_reset, release_pins, install, out_of_fuel,
}
use air_dap.Ownership.Alone.{Answers, failing, run}
use air_dap.Ownership.System.{
  System, Memory, Reply, Call, start, Action, loads, stores, swaps, misses, swaps_weak, misses_weak,
  resets, frees, installs, update, Step, acts, calls, Reach, here, next,
}
use air_dap.Prelude.{
  ℕ, ◌≡◌, ◌⊎◌, Option, List, [], ◌∷◌, refl, sym, subst, arith, Bool, true, false, Bool-cases, ◌==◌,
  some, inl, inr,
}

-- A later state in which thread `i` has returned `a` and the word is `c`.
pub record Returns (s : System) (i : ℕ) (a : Reply) (c : ℕ) : Type 0 where
  pub after : System
  pub path : Reach s after
  pub returned : after.thread i ≡ ret a
  pub word : after.control ≡ c

prepend : {s t u : System} → Step s t → Reach t u → Reach s u
prepend st here = next here st
prepend st (next r z) = next (prepend st r) z

abbrev moved : System → ℕ → Memory → Program Reply → System
moved s i m q = record { memory = m; thread = update s.thread i q }

update_same : {A : Type 0} (f : ℕ → A) (i : ℕ) (x : A) → update f i x i ≡ x
update_same f i x = elim (Bool-cases (i == i)) [
  | inl e ↦ rw e refl
  | inr e ↦ absurd (ground (arith, e))
]

first :
    {s : System} {i c : ℕ} {a : Reply} {m : Memory} (p q : Program Reply)
    → s.thread i ≡ p
    → Action s.memory p m q
    → Returns (moved s i m q) i a c
    → Returns s i a c
first {s} {i} {m = m} p q e act o = record {
  after = o.after;
  path = prepend (acts i (subst (λ (x : Program Reply). Action s.memory x m q) (sym e) act)) o.path;
  returned = o.returned;
  word = o.word;
}

-- A weak exchange swaps where it finds the expected word, or it misses.
run-weak_cases :
    {A : Type 0} (b : Answers) (x d control : ℕ) (p : Program A) (q : ℕ → Program A)
    (out : Option A × ℕ)
    → run b (cas_weak x d p q) control ≡ out
    → ((control ≡ x) × (b' : Answers) × (run b' p d ≡ out))
      ⊎ ((b' : Answers) × (run b' (q control) control ≡ out))
unfolding run
run-weak_cases b x d control p q out h = cases (control == x) b.spurious refl h
  where
    cases :
        (t : Bool) (fs : List Bool)
        → (control == x) ≡ t
        → (elim t [
          | true ↦ elim fs [
            | [] ↦ run b p d
            | fails ∷ rest ↦ elim fails [
              | true ↦ run (failing b rest) (q control) control
              | false ↦ run (failing b rest) p d
            ]
          ]
          | false ↦ run b (q control) control
        ])
          ≡ out
        → ((control ≡ x) × (b' : Answers) × (run b' p d ≡ out))
          ⊎ ((b' : Answers) × (run b' (q control) control ≡ out))
    cases true [] same r = inl (ground (arith, same), b, r)
    cases true (true ∷ rest) same r = inr (failing b rest, r)
    cases true (false ∷ rest) same r = inl (ground (arith, same), failing b rest, r)
    cases false fs other r = inr (b, r)

pub run-Returns :
    (b : Answers) (i : ℕ) (a : Reply) (c : ℕ) (p : Program Reply) (s : System)
    → s.thread i ≡ p
    → run b p s.control ≡ (some a, c)
    → Returns s i a c
unfolding run
run-Returns b i a c (ret r) s e h = record {
  after = s;
  path = here;
  returned = ground arith;
  word = ground arith;
}
run-Returns b i a c (load k) s e h =
    first (load k) (k s.control) e loads
      (run-Returns b i a c (k s.control) _ (update_same s.thread i _) h)
run-Returns b i a c (store v p) s e h =
    first (store v p) p e stores (run-Returns b i a c p _ (update_same s.thread i p) h)
run-Returns b i a c (cas x d p q) s e h = elim (Bool-cases (s.control == x)) [
  | inl same ↦ first (cas x d p q) p e (swaps (ground (arith, same))) (
      run-Returns b i a c p _ (update_same s.thread i p) (
        subst
          (λ (t : Bool).
            (elim t [ true ↦ run b p d | false ↦ run b (q s.control) s.control ]) ≡ (some a, c))
          same h))
  | inr other ↦ first (cas x d p q) (q s.control) e (misses (ground (arith, other))) (
      run-Returns b i a c (q s.control) _ (update_same s.thread i _) (
        subst
          (λ (t : Bool).
            (elim t [ true ↦ run b p d | false ↦ run b (q s.control) s.control ]) ≡ (some a, c))
          other h))
]
run-Returns b i a c (cas_weak x d p q) s e h = elim (run-weak_cases b x d s.control p q _ h) [
  | inl (same, b', r) ↦
      first (cas_weak x d p q) p e (swaps_weak same)
        (run-Returns b' i a c p _ (update_same s.thread i p) r)
  | inr (b', r) ↦
      first (cas_weak x d p q) (q s.control) e misses_weak
        (run-Returns b' i a c (q s.control) _ (update_same s.thread i _) r)
]
run-Returns b i a c (line_reset k) s e h =
    first (line_reset k) (k b.resets) e (resets b.resets)
      (run-Returns b i a c (k b.resets) _ (update_same s.thread i _) h)
run-Returns b i a c (release_pins k) s e h =
    first (release_pins k) (k b.frees) e (frees b.frees)
      (run-Returns b i a c (k b.frees) _ (update_same s.thread i _) h)
run-Returns b i a c (install p) s e h =
    first (install p) p e installs (run-Returns b i a c p _ (update_same s.thread i p) h)
run-Returns b i a c out_of_fuel s e h = absurd (ground (arith, h))

-- The same for a call that thread `i` makes once its last one has returned.
pub call-Returns :
    (s : System) (b : Answers) (i : ℕ) (r a : Reply) (c : ℕ) (call : Call)
    → s.thread i ≡ ret r
    → run b (start call) s.control ≡ (some a, c)
    → Returns s i a c
call-Returns s b i r a c call e h =
    let o =
      run-Returns b i a c (start call) (moved s i s.memory (start call))
        (update_same s.thread i (start call)) h in
    record {
      after = o.after;
      path = prepend (calls i r call e) o.path;
      returned = o.returned;
      word = o.word;
    }

pub Reach-trans : {s t u : System} → Reach s t → Reach t u → Reach s u
Reach-trans r here = r
Reach-trans r (next q st) = next (Reach-trans r q) st
