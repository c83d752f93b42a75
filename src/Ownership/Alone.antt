-- ===== src/Ownership/Alone.antt =====
-- Calls that no other thread disturbs.
pub mod Lifecycle
pub mod Blocking
use air_dap.Ownership.Program.{
  Program, ret, load, store, cas, cas_weak, line_reset, release_pins, install, out_of_fuel,
}
use air_dap.Prelude.{ℕ, Bool, true, false, Option, none, some, List, [], ◌∷◌, ◌==◌}

-- What the backend answers to `line_reset` and to `release_pins`, and which of the weak exchanges that
-- find the expected word fail all the same: the first entry is the first such exchange, `true` says that
-- it fails, and those after the last entry succeed.
pub record Answers : Type 0 where
  pub resets : Bool
  pub frees : Bool
  pub spurious : List Bool

-- The same answers with these failures of the weak exchanges.
abbrev pub failing : Answers → List Bool → Answers
failing b spurious = record b { spurious = spurious }

-- The value returned and the word left behind; `none` if the fuel of a loop is used up. A strong exchange
-- succeeds exactly where the word is the expected one; a weak one may fail even there.
unfoldable pub run : {A : Type 0} → Answers → Program A → ℕ → Option A × ℕ
run b (ret a) control = (some a, control)
run b (load k) control = run b (k control) control
run b (store v p) control = run b p v
run b (cas e d p q) control = elim (control == e) [
  | true ↦ run b p d
  | false ↦ run b (q control) control
]
run b (cas_weak e d p q) control = elim (control == e) [
  | true ↦ elim b.spurious [
    | [] ↦ run b p d
    | fails ∷ rest ↦ elim fails [
      | true ↦ run (failing b rest) (q control) control
      | false ↦ run (failing b rest) p d
    ]
  ]
  | false ↦ run b (q control) control
]
run b (line_reset k) control = run b (k b.resets) control
run b (release_pins k) control = run b (k b.frees) control
run b (install p) control = run b p control
run b out_of_fuel control = (none, control)
