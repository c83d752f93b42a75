-- ===== src/Ownership/Typing.antt =====
-- A discipline for programs over the control word: a thread either holds the transition state, and
-- then it alone calls the backend and stores a word, or it does not, and then it only exchanges words.
pub mod Exchange
pub mod Settle
pub mod Calls
use air_dap.Ownership.Word.{
  state_transition, control_state, control_generation, is_active, is_owner, clear_active, IsWord,
}
use air_dap.Ownership.Program.{
  Program, ret, load, store, cas, cas_weak, line_reset, release_pins, install, out_of_fuel, map,
}
use air_dap.Prelude.{ℕ, ◌+◌, ◌≡◌, ◌≢◌, ◌⊎◌, inl, inr, Bool, true, false, if◌then◌else◌, ap, refl}

pub data Mode : Type 0 where
  free : Mode
  -- The transition state is this thread's, under this generation.
  holding : ℕ → Mode

-- An exchange that takes the transition state.
pub record Takes (e d : ℕ) : Type 0 where
  pub from : control_state e ≢ state_transition
  pub quiet : is_active e ≡ false
  pub to : control_state d ≡ state_transition
  pub word : IsWord d
  pub calm : is_active d ≡ false
  pub generation_lem : control_generation d ≡ control_generation e

-- An exchange that leaves the transition state alone. It installs no owner, and under a running
-- operation it only ends this operation.
pub record Keeps (e d : ℕ) : Type 0 where
  pub from : control_state e ≢ state_transition
  pub to : control_state d ≢ state_transition
  pub word : IsWord d
  pub generation_lem : control_generation d ≡ control_generation e
  pub same_owner : is_owner (control_state d) ≡ true → control_state d ≡ control_state e
  pub ends : is_active e ≡ true → d ≡ clear_active e

-- A word that the holder may store: it ends the transition, and an owner comes with a new generation.
pub record Settles (g v : ℕ) : Type 0 where
  pub to : control_state v ≢ state_transition
  pub word : IsWord v
  pub calm : is_active v ≡ false
  pub generation_lem :
      ((control_generation v ≡ g) × (is_owner (control_state v) ≡ false))
      ⊎ (control_generation v ≡ g + 1)

module _ {A : Type 0} where
  abbrev pub Disciplined : Program A → Mode → Type 0
  Disciplined (ret a) free = Unit
  Disciplined (ret a) (holding g) = ⊥
  Disciplined (load k) free = (v : ℕ) → IsWord v → Disciplined (k v) free
  Disciplined (load k) (holding g) = ⊥
  Disciplined (store v p) free = ⊥
  Disciplined (store v p) (holding g) = Settles g v × Disciplined p free
  Disciplined (cas e d p q) free =
      (IsWord e
        → (Takes e d × Disciplined p (holding (control_generation e)))
          ⊎ (Keeps e d × Disciplined p free))
      × ((v : ℕ) → IsWord v → Disciplined (q v) free)
  Disciplined (cas e d p q) (holding g) = ⊥
  Disciplined (cas_weak e d p q) free =
      (IsWord e
        → (Takes e d × Disciplined p (holding (control_generation e)))
          ⊎ (Keeps e d × Disciplined p free))
      × ((v : ℕ) → IsWord v → Disciplined (q v) free)
  Disciplined (cas_weak e d p q) (holding g) = ⊥
  Disciplined (line_reset k) free = ⊥
  Disciplined (line_reset k) (holding g) = (b : Bool) → Disciplined (k b) (holding g)
  Disciplined (release_pins k) free = ⊥
  Disciplined (release_pins k) (holding g) = (b : Bool) → Disciplined (k b) (holding g)
  Disciplined (install p) free = ⊥
  Disciplined (install p) (holding g) = Disciplined p (holding g)
  Disciplined out_of_fuel free = Unit
  Disciplined out_of_fuel (holding g) = ⊥

  -- A test that decides between two programs.
  pub Disciplined-if :
      (m : Mode) (b : Bool) (p q : Program A)
      → (b ≡ true → Disciplined p m)
      → (b ≡ false → Disciplined q m)
      → Disciplined (if b then p else q) m
  Disciplined-if m true p q hp hq = hp refl
  Disciplined-if m false p q hp hq = hq refl

-- What a program returns does not matter.
pub Disciplined-map :
    {A B : Type 0} (f : A → B) (p : Program A) (m : Mode)
    → Disciplined p m
    → Disciplined (map f p) m
unfolding map
Disciplined-map f (ret a) free h = tt
Disciplined-map f (ret a) (holding g) h = h
Disciplined-map f (load k) free h = λ v w. Disciplined-map f (k v) free (h v w)
Disciplined-map f (load k) (holding g) h = h
Disciplined-map f (store v p) free h = h
Disciplined-map f (store v p) (holding g) h = (h.0, Disciplined-map f p free h.1)
Disciplined-map f (cas e d p q) free h = (
  λ w. elim (h.0 w) [
    | inl t ↦ inl (t.0, Disciplined-map f p (holding (control_generation e)) t.1)
    | inr t ↦ inr (t.0, Disciplined-map f p free t.1)
  ],
  λ v w. Disciplined-map f (q v) free (h.1 v w),
)
Disciplined-map f (cas e d p q) (holding g) h = h
Disciplined-map f (cas_weak e d p q) free h = (
  λ w. elim (h.0 w) [
    | inl t ↦ inl (t.0, Disciplined-map f p (holding (control_generation e)) t.1)
    | inr t ↦ inr (t.0, Disciplined-map f p free t.1)
  ],
  λ v w. Disciplined-map f (q v) free (h.1 v w),
)
Disciplined-map f (cas_weak e d p q) (holding g) h = h
Disciplined-map f (line_reset k) free h = h
Disciplined-map f (line_reset k) (holding g) h = λ b. Disciplined-map f (k b) (holding g) (h b)
Disciplined-map f (release_pins k) free h = h
Disciplined-map f (release_pins k) (holding g) h = λ b. Disciplined-map f (k b) (holding g) (h b)
Disciplined-map f (install p) free h = h
Disciplined-map f (install p) (holding g) h = Disciplined-map f p (holding g) h
Disciplined-map f out_of_fuel free h = tt
Disciplined-map f out_of_fuel (holding g) h = h
