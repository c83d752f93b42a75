-- ===== src/Mode/Monitor.antt =====
-- Properties of every path of a call of firmware/components/mode_state, whatever the words that it
-- observes and whatever the arbiter, its backend and the NVS library answer: a monitor follows the
-- actions, permits or forbids each, and judges the result.
pub mod Weaken
pub mod Calm
pub mod Preemption
pub mod Results
pub mod Storage
use air_dap.Ownership.Program.{
  Program, ret, load, store, cas, cas_weak, line_reset, release_pins, install, out_of_fuel,
}
use air_dap.Mode.Program.{
  NvsError, nvs_ok, ModeProgram, returns, load_mode, store_mode, cas_mode, cas_mode_weak,
  load_inflight, store_inflight, add_inflight, sub_inflight, load_owner, store_owner, cas_owner,
  cas_owner_weak, reset_line, free_pins, install_backend, nvs_open_read, nvs_open_write, nvs_get,
  nvs_set, nvs_commit, nvs_close, spent, arbiter, after,
}
use air_dap.Prelude.{ℕ, ◌≡◌, refl, sym, subst, Bool, true, false, if◌then◌else◌, ◌<◌, ◌^◌}

-- What a monitor sees of an action.
pub data Seen : Type 0 where
  reads_mode : Seen
  writes_mode : ℕ → Seen
  reads_inflight resets_inflight adds_inflight subs_inflight : Seen
  -- Any action of a call of the arbiter.
  asks_arbiter : Seen
  reads_nvs : Seen
  sets_nvs : ℕ → NvsError → Seen
  commits_nvs : NvsError → Seen

-- Every result of a call of the arbiter satisfies `P`.
abbrev pub Yields : {A : Type 0} → (A → Type 0) → Program A → Type 0
Yields P (ret a) = P a
Yields P (load k) = (v : ℕ) → Yields P (k v)
Yields P (store v p) = Yields P p
Yields P (cas e d p q) = Yields P p × ((v : ℕ) → Yields P (q v))
Yields P (cas_weak e d p q) = Yields P p × ((v : ℕ) → Yields P (q v))
Yields P (line_reset k) = (b : Bool) → Yields P (k b)
Yields P (release_pins k) = (b : Bool) → Yields P (k b)
Yields P (install p) = Yields P p
Yields P out_of_fuel = Unit

pub Yields-any : {A : Type 0} (P : A → Type 0) → ((a : A) → P a) → (p : Program A) → Yields P p
Yields-any P h (ret a) = h a
Yields-any P h (load k) = λ v. Yields-any P h (k v)
Yields-any P h (store v p) = Yields-any P h p
Yields-any P h (cas e d p q) = (Yields-any P h p, λ v. Yields-any P h (q v))
Yields-any P h (cas_weak e d p q) = (Yields-any P h p, λ v. Yields-any P h (q v))
Yields-any P h (line_reset k) = λ b. Yields-any P h (k b)
Yields-any P h (release_pins k) = λ b. Yields-any P h (k b)
Yields-any P h (install p) = Yields-any P h p
Yields-any P h out_of_fuel = tt

module _ {S : Type 0} (permits : S → Seen → Type 0) (next : S → Seen → S) where
  -- From `s` on, every action of the program is permitted, and every result satisfies `P`. The
  -- mode word that is read has 32 bits.
  abbrev pub Obeys : {A : Type 0} → (S → A → Type 0) → S → ModeProgram A → Type 0
  Obeys P s (returns a) = P s a
  Obeys P s (load_mode k) =
      permits s reads_mode × ((v : ℕ) → v < 2 ^ 32 → Obeys P (next s reads_mode) (k v))
  Obeys P s (store_mode v p) = permits s (writes_mode v) × Obeys P (next s (writes_mode v)) p
  Obeys P s (cas_mode e d p q) =
      permits s (writes_mode d)
      × Obeys P (next s (writes_mode d)) p
      × ((v : ℕ) → v < 2 ^ 32 → Obeys P (next s reads_mode) (q v))
  Obeys P s (cas_mode_weak e d p q) =
      permits s (writes_mode d)
      × Obeys P (next s (writes_mode d)) p
      × ((v : ℕ) → v < 2 ^ 32 → Obeys P (next s reads_mode) (q v))
  Obeys P s (load_inflight k) =
      permits s reads_inflight × ((v : ℕ) → Obeys P (next s reads_inflight) (k v))
  Obeys P s (store_inflight v p) = permits s resets_inflight × Obeys P (next s resets_inflight) p
  Obeys P s (add_inflight p) = permits s adds_inflight × Obeys P (next s adds_inflight) p
  Obeys P s (sub_inflight p) = permits s subs_inflight × Obeys P (next s subs_inflight) p
  Obeys P s (load_owner k) =
      permits s asks_arbiter × ((v : ℕ) → Obeys P (next s asks_arbiter) (k v))
  Obeys P s (store_owner v p) = permits s asks_arbiter × Obeys P (next s asks_arbiter) p
  Obeys P s (cas_owner e d p q) =
      permits s asks_arbiter
      × Obeys P (next s asks_arbiter) p
      × ((v : ℕ) → Obeys P (next s asks_arbiter) (q v))
  Obeys P s (cas_owner_weak e d p q) =
      permits s asks_arbiter
      × Obeys P (next s asks_arbiter) p
      × ((v : ℕ) → Obeys P (next s asks_arbiter) (q v))
  Obeys P s (reset_line k) =
      permits s asks_arbiter × ((b : Bool) → Obeys P (next s asks_arbiter) (k b))
  Obeys P s (free_pins k) =
      permits s asks_arbiter × ((b : Bool) → Obeys P (next s asks_arbiter) (k b))
  Obeys P s (install_backend p) = permits s asks_arbiter × Obeys P (next s asks_arbiter) p
  Obeys P s (nvs_open_read k) =
      permits s reads_nvs × ((e : NvsError) → Obeys P (next s reads_nvs) (k e))
  Obeys P s (nvs_open_write k) =
      permits s reads_nvs × ((e : NvsError) → Obeys P (next s reads_nvs) (k e))
  Obeys P s (nvs_get k) =
      permits s reads_nvs × ((e : NvsError) (v : ℕ) → Obeys P (next s reads_nvs) (k e v))
  Obeys P s (nvs_set v k) =
      (e : NvsError) → permits s (sets_nvs v e) × Obeys P (next s (sets_nvs v e)) (k e)
  Obeys P s (nvs_commit k) =
      (e : NvsError) → permits s (commits_nvs e) × Obeys P (next s (commits_nvs e)) (k e)
  Obeys P s (nvs_close p) = permits s reads_nvs × Obeys P (next s reads_nvs) p
  Obeys P s spent = Unit

  -- A program, and then another from wherever it ends.
  pub Obeys-after :
      {A B : Type 0} (P : S → A → Type 0) (Q : S → B → Type 0) (f : A → ModeProgram B) (s : S)
      (p : ModeProgram A)
      → Obeys P s p
      → ((t : S) (a : A) → P t a → Obeys Q t (f a))
      → Obeys Q s (after p f)
  unfolding after
  Obeys-after P Q f s (returns a) h k = k s a h
  Obeys-after P Q f s (load_mode g) h k =
      (h.0, λ v w. Obeys-after P Q f (next s reads_mode) (g v) (h.1 v w) k)
  Obeys-after P Q f s (store_mode v p) h k =
      (h.0, Obeys-after P Q f (next s (writes_mode v)) p h.1 k)
  Obeys-after P Q f s (cas_mode e d p q) h k = (
    h.0,
    Obeys-after P Q f (next s (writes_mode d)) p h.1 k,
    λ v w. Obeys-after P Q f (next s reads_mode) (q v) (h.2 v w) k,
  )
  Obeys-after P Q f s (cas_mode_weak e d p q) h k = (
    h.0,
    Obeys-after P Q f (next s (writes_mode d)) p h.1 k,
    λ v w. Obeys-after P Q f (next s reads_mode) (q v) (h.2 v w) k,
  )
  Obeys-after P Q f s (load_inflight g) h k =
      (h.0, λ v. Obeys-after P Q f (next s reads_inflight) (g v) (h.1 v) k)
  Obeys-after P Q f s (store_inflight v p) h k =
      (h.0, Obeys-after P Q f (next s resets_inflight) p h.1 k)
  Obeys-after P Q f s (add_inflight p) h k = (h.0, Obeys-after P Q f (next s adds_inflight) p h.1 k)
  Obeys-after P Q f s (sub_inflight p) h k = (h.0, Obeys-after P Q f (next s subs_inflight) p h.1 k)
  Obeys-after P Q f s (load_owner g) h k =
      (h.0, λ v. Obeys-after P Q f (next s asks_arbiter) (g v) (h.1 v) k)
  Obeys-after P Q f s (store_owner v p) h k = (h.0, Obeys-after P Q f (next s asks_arbiter) p h.1 k)
  Obeys-after P Q f s (cas_owner e d p q) h k = (
    h.0,
    Obeys-after P Q f (next s asks_arbiter) p h.1 k,
    λ v. Obeys-after P Q f (next s asks_arbiter) (q v) (h.2 v) k,
  )
  Obeys-after P Q f s (cas_owner_weak e d p q) h k = (
    h.0,
    Obeys-after P Q f (next s asks_arbiter) p h.1 k,
    λ v. Obeys-after P Q f (next s asks_arbiter) (q v) (h.2 v) k,
  )
  Obeys-after P Q f s (reset_line g) h k =
      (h.0, λ b. Obeys-after P Q f (next s asks_arbiter) (g b) (h.1 b) k)
  Obeys-after P Q f s (free_pins g) h k =
      (h.0, λ b. Obeys-after P Q f (next s asks_arbiter) (g b) (h.1 b) k)
  Obeys-after P Q f s (install_backend p) h k =
      (h.0, Obeys-after P Q f (next s asks_arbiter) p h.1 k)
  Obeys-after P Q f s (nvs_open_read g) h k =
      (h.0, λ e. Obeys-after P Q f (next s reads_nvs) (g e) (h.1 e) k)
  Obeys-after P Q f s (nvs_open_write g) h k =
      (h.0, λ e. Obeys-after P Q f (next s reads_nvs) (g e) (h.1 e) k)
  Obeys-after P Q f s (nvs_get g) h k =
      (h.0, λ e v. Obeys-after P Q f (next s reads_nvs) (g e v) (h.1 e v) k)
  Obeys-after P Q f s (nvs_set v g) h k =
      λ e. ((h e).0, Obeys-after P Q f (next s (sets_nvs v e)) (g e) (h e).1 k)
  Obeys-after P Q f s (nvs_commit g) h k =
      λ e. ((h e).0, Obeys-after P Q f (next s (commits_nvs e)) (g e) (h e).1 k)
  Obeys-after P Q f s (nvs_close p) h k = (h.0, Obeys-after P Q f (next s reads_nvs) p h.1 k)
  Obeys-after P Q f s spent h k = tt

  -- After an action that leaves the monitor where it is.
  stay :
      {B : Type 0} (Q : S → B → Type 0) (s : S)
      → next s asks_arbiter ≡ s
      → (p : ModeProgram B) → Obeys Q s p
      → Obeys Q (next s asks_arbiter) p
  stay Q s same p h = subst (λ (t : S). Obeys Q t p) (sym same) h

  -- A call of the arbiter where the monitor lets every one of its actions through.
  pub Obeys-arbiter :
      {A B : Type 0} (P : A → Type 0) (Q : S → B → Type 0) (f : A → ModeProgram B) (s : S)
      (p : Program A)
      → permits s asks_arbiter
      → next s asks_arbiter ≡ s
      → Yields P p
      → ((a : A) → P a → Obeys Q s (f a))
      → Obeys Q s (arbiter p f)
  unfolding arbiter
  Obeys-arbiter P Q f s (ret a) may same h k = k a h
  Obeys-arbiter P Q f s (load g) may same h k =
      (may, λ v. stay Q s same (arbiter (g v) f) (Obeys-arbiter P Q f s (g v) may same (h v) k))
  Obeys-arbiter P Q f s (store v p) may same h k =
      (may, stay Q s same (arbiter p f) (Obeys-arbiter P Q f s p may same h k))
  Obeys-arbiter P Q f s (cas e d p q) may same h k = (
    may,
    stay Q s same (arbiter p f) (Obeys-arbiter P Q f s p may same h.0 k),
    λ v. stay Q s same (arbiter (q v) f) (Obeys-arbiter P Q f s (q v) may same (h.1 v) k),
  )
  Obeys-arbiter P Q f s (cas_weak e d p q) may same h k = (
    may,
    stay Q s same (arbiter p f) (Obeys-arbiter P Q f s p may same h.0 k),
    λ v. stay Q s same (arbiter (q v) f) (Obeys-arbiter P Q f s (q v) may same (h.1 v) k),
  )
  Obeys-arbiter P Q f s (line_reset g) may same h k =
      (may, λ b. stay Q s same (arbiter (g b) f) (Obeys-arbiter P Q f s (g b) may same (h b) k))
  Obeys-arbiter P Q f s (release_pins g) may same h k =
      (may, λ b. stay Q s same (arbiter (g b) f) (Obeys-arbiter P Q f s (g b) may same (h b) k))
  Obeys-arbiter P Q f s (install p) may same h k =
      (may, stay Q s same (arbiter p f) (Obeys-arbiter P Q f s p may same h k))
  Obeys-arbiter P Q f s out_of_fuel may same h k = tt

  -- A test that decides between two programs.
  pub Obeys-if :
      {A : Type 0} (P : S → A → Type 0) (s : S) (b : Bool) (p q : ModeProgram A)
      → (b ≡ true → Obeys P s p)
      → (b ≡ false → Obeys P s q)
      → Obeys P s (if b then p else q)
  Obeys-if P s true p q hp hq = hp refl
  Obeys-if P s false p q hp hq = hq refl
