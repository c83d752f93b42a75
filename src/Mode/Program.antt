-- ===== src/Mode/Program.antt =====
-- Calls of firmware/components/mode_state as sequences of atomic actions, between which other threads
-- run: an action is an access of the mode word, of the count of USB preemptions in flight, of the word
-- of the port's arbiter, or a call of the NVS library.
use air_dap.Ownership.Program.{
  Program, ret, load, store, cas, cas_weak, line_reset, release_pins, install, out_of_fuel,
}
use air_dap.Prelude.{ℕ, Bool}

-- An `esp_err_t` of the NVS library, as far as the source tells its values apart.
pub data NvsError : Type 0 where
  nvs_ok nvs_not_found nvs_fails : NvsError

pub data ModeProgram (A : Type 0) : Type 0 where
  returns : A → ModeProgram A
  -- `mode_control`
  load_mode : (ℕ → ModeProgram A) → ModeProgram A
  store_mode : ℕ → ModeProgram A → ModeProgram A
  cas_mode : ℕ → ℕ → ModeProgram A → (ℕ → ModeProgram A) → ModeProgram A
  cas_mode_weak : ℕ → ℕ → ModeProgram A → (ℕ → ModeProgram A) → ModeProgram A
  -- `usb_preemptions_inflight`
  load_inflight : (ℕ → ModeProgram A) → ModeProgram A
  store_inflight : ℕ → ModeProgram A → ModeProgram A
  add_inflight : ModeProgram A → ModeProgram A
  sub_inflight : ModeProgram A → ModeProgram A
  -- `ownership_control`, inside a call of the arbiter
  load_owner : (ℕ → ModeProgram A) → ModeProgram A
  store_owner : ℕ → ModeProgram A → ModeProgram A
  cas_owner : ℕ → ℕ → ModeProgram A → (ℕ → ModeProgram A) → ModeProgram A
  cas_owner_weak : ℕ → ℕ → ModeProgram A → (ℕ → ModeProgram A) → ModeProgram A
  -- The backend of the arbiter.
  reset_line : (Bool → ModeProgram A) → ModeProgram A
  free_pins : (Bool → ModeProgram A) → ModeProgram A
  install_backend : ModeProgram A → ModeProgram A
  -- `nvs_open`, for reading and for writing; `nvs_get_u8`, `nvs_set_u8`, `nvs_commit`, `nvs_close`
  nvs_open_read : (NvsError → ModeProgram A) → ModeProgram A
  nvs_open_write : (NvsError → ModeProgram A) → ModeProgram A
  nvs_get : (NvsError → ℕ → ModeProgram A) → ModeProgram A
  nvs_set : ℕ → (NvsError → ModeProgram A) → ModeProgram A
  nvs_commit : (NvsError → ModeProgram A) → ModeProgram A
  nvs_close : ModeProgram A → ModeProgram A
  -- The rounds of a `for (;;)` that this run may take are used up.
  spent : ModeProgram A

-- A call of the arbiter, and what follows it.
unfoldable pub arbiter : {A B : Type 0} → Program A → (A → ModeProgram B) → ModeProgram B
arbiter (ret a) f = f a
arbiter (load k) f = load_owner λ v. arbiter (k v) f
arbiter (store v p) f = store_owner v (arbiter p f)
arbiter (cas e d p q) f = cas_owner e d (arbiter p f) (λ v. arbiter (q v) f)
arbiter (cas_weak e d p q) f = cas_owner_weak e d (arbiter p f) (λ v. arbiter (q v) f)
arbiter (line_reset k) f = reset_line λ b. arbiter (k b) f
arbiter (release_pins k) f = free_pins λ b. arbiter (k b) f
arbiter (install p) f = install_backend (arbiter p f)
arbiter out_of_fuel f = spent

-- `p`, and then what follows its result.
unfoldable pub after : {A B : Type 0} → ModeProgram A → (A → ModeProgram B) → ModeProgram B
after (returns a) f = f a
after (load_mode k) f = load_mode λ v. after (k v) f
after (store_mode v p) f = store_mode v (after p f)
after (cas_mode e d p q) f = cas_mode e d (after p f) (λ v. after (q v) f)
after (cas_mode_weak e d p q) f = cas_mode_weak e d (after p f) (λ v. after (q v) f)
after (load_inflight k) f = load_inflight λ v. after (k v) f
after (store_inflight v p) f = store_inflight v (after p f)
after (add_inflight p) f = add_inflight (after p f)
after (sub_inflight p) f = sub_inflight (after p f)
after (load_owner k) f = load_owner λ v. after (k v) f
after (store_owner v p) f = store_owner v (after p f)
after (cas_owner e d p q) f = cas_owner e d (after p f) (λ v. after (q v) f)
after (cas_owner_weak e d p q) f = cas_owner_weak e d (after p f) (λ v. after (q v) f)
after (reset_line k) f = reset_line λ b. after (k b) f
after (free_pins k) f = free_pins λ b. after (k b) f
after (install_backend p) f = install_backend (after p f)
after (nvs_open_read k) f = nvs_open_read λ e. after (k e) f
after (nvs_open_write k) f = nvs_open_write λ e. after (k e) f
after (nvs_get k) f = nvs_get λ e v. after (k e v) f
after (nvs_set v k) f = nvs_set v λ e. after (k e) f
after (nvs_commit k) f = nvs_commit λ e. after (k e) f
after (nvs_close p) f = nvs_close (after p f)
after spent f = spent
