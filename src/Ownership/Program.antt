-- ===== src/Ownership/Program.antt =====
-- Calls of the arbiter as sequences of atomic actions, between which other threads run: every shared
-- access of firmware/components/dap_ownership/dap_ownership.c is one action.
use air_dap.Prelude.{ℕ, Bool}

pub data Program (A : Type 0) : Type 0 where
  -- `return`
  ret : A → Program A
  -- `atomic_load(&ownership_control)`
  load : (ℕ → Program A) → Program A
  -- `atomic_store(&ownership_control, value)`
  store : ℕ → Program A → Program A
  -- `atomic_compare_exchange_strong`: the expected and the desired word, what follows a success, and
  -- what follows a failure, with the word observed.
  cas : ℕ → ℕ → Program A → (ℕ → Program A) → Program A
  -- `atomic_compare_exchange_weak`, which may also fail without a reason.
  cas_weak : ℕ → ℕ → Program A → (ℕ → Program A) → Program A
  -- `ownership_backend.line_reset(ownership_backend.context)`
  line_reset : (Bool → Program A) → Program A
  -- `ownership_backend.release_pins(ownership_backend.context)`
  release_pins : (Bool → Program A) → Program A
  -- `ownership_backend = *backend`
  install : Program A → Program A
  -- The rounds of a `for (;;)` that this run may take are used up.
  out_of_fuel : Program A

unfoldable pub map : {A B : Type 0} → (A → B) → Program A → Program B
map f (ret a) = ret (f a)
map f (load k) = load (λ v. map f (k v))
map f (store v p) = store v (map f p)
map f (cas e d p q) = cas e d (map f p) (λ v. map f (q v))
map f (cas_weak e d p q) = cas_weak e d (map f p) (λ v. map f (q v))
map f (line_reset k) = line_reset (λ b. map f (k b))
map f (release_pins k) = release_pins (λ b. map f (k b))
map f (install p) = install (map f p)
map f out_of_fuel = out_of_fuel
