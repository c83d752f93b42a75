-- ===== src/Mode/Monitor/Weaken.antt =====
-- A weaker judgement of the results, for the monitors on the calls of firmware/components/mode_state.
use air_dap.Mode.Program.{
  ModeProgram, returns, load_mode, store_mode, cas_mode, cas_mode_weak, load_inflight,
  store_inflight, add_inflight, sub_inflight, load_owner, store_owner, cas_owner, cas_owner_weak,
  reset_line, free_pins, install_backend, nvs_open_read, nvs_open_write, nvs_get, nvs_set,
  nvs_commit, nvs_close, spent,
}
use air_dap.Mode.Monitor.{
  Seen, reads_mode, writes_mode, reads_inflight, resets_inflight, adds_inflight, subs_inflight,
  asks_arbiter, reads_nvs, sets_nvs, commits_nvs, Obeys,
}

module _ {S : Type 0} (permits : S → Seen → Type 0) (next : S → Seen → S) {A : Type 0}
    (P Q : S → A → Type 0) where
  pub Obeys-weaken :
      (s : S) (p : ModeProgram A)
      → Obeys permits next P s p
      → ((t : S) (a : A) → P t a → Q t a)
      → Obeys permits next Q s p
  Obeys-weaken s (returns a) h k = k s a h
  Obeys-weaken s (load_mode g) h k =
      (h.0, λ v w. Obeys-weaken (next s reads_mode) (g v) (h.1 v w) k)
  Obeys-weaken s (store_mode v p) h k = (h.0, Obeys-weaken (next s (writes_mode v)) p h.1 k)
  Obeys-weaken s (cas_mode e d p q) h k = (
    h.0,
    Obeys-weaken (next s (writes_mode d)) p h.1 k,
    λ v w. Obeys-weaken (next s reads_mode) (q v) (h.2 v w) k,
  )
  Obeys-weaken s (cas_mode_weak e d p q) h k = (
    h.0,
    Obeys-weaken (next s (writes_mode d)) p h.1 k,
    λ v w. Obeys-weaken (next s reads_mode) (q v) (h.2 v w) k,
  )
  Obeys-weaken s (load_inflight g) h k =
      (h.0, λ v. Obeys-weaken (next s reads_inflight) (g v) (h.1 v) k)
  Obeys-weaken s (store_inflight v p) h k = (h.0, Obeys-weaken (next s resets_inflight) p h.1 k)
  Obeys-weaken s (add_inflight p) h k = (h.0, Obeys-weaken (next s adds_inflight) p h.1 k)
  Obeys-weaken s (sub_inflight p) h k = (h.0, Obeys-weaken (next s subs_inflight) p h.1 k)
  Obeys-weaken s (load_owner g) h k = (h.0, λ v. Obeys-weaken (next s asks_arbiter) (g v) (h.1 v) k)
  Obeys-weaken s (store_owner v p) h k = (h.0, Obeys-weaken (next s asks_arbiter) p h.1 k)
  Obeys-weaken s (cas_owner e d p q) h k = (
    h.0,
    Obeys-weaken (next s asks_arbiter) p h.1 k,
    λ v. Obeys-weaken (next s asks_arbiter) (q v) (h.2 v) k,
  )
  Obeys-weaken s (cas_owner_weak e d p q) h k = (
    h.0,
    Obeys-weaken (next s asks_arbiter) p h.1 k,
    λ v. Obeys-weaken (next s asks_arbiter) (q v) (h.2 v) k,
  )
  Obeys-weaken s (reset_line g) h k = (h.0, λ b. Obeys-weaken (next s asks_arbiter) (g b) (h.1 b) k)
  Obeys-weaken s (free_pins g) h k = (h.0, λ b. Obeys-weaken (next s asks_arbiter) (g b) (h.1 b) k)
  Obeys-weaken s (install_backend p) h k = (h.0, Obeys-weaken (next s asks_arbiter) p h.1 k)
  Obeys-weaken s (nvs_open_read g) h k = (h.0, λ e. Obeys-weaken (next s reads_nvs) (g e) (h.1 e) k)
  Obeys-weaken s (nvs_open_write g) h k =
      (h.0, λ e. Obeys-weaken (next s reads_nvs) (g e) (h.1 e) k)
  Obeys-weaken s (nvs_get g) h k = (h.0, λ e v. Obeys-weaken (next s reads_nvs) (g e v) (h.1 e v) k)
  Obeys-weaken s (nvs_set v g) h k =
      λ e. ((h e).0, Obeys-weaken (next s (sets_nvs v e)) (g e) (h e).1 k)
  Obeys-weaken s (nvs_commit g) h k =
      λ e. ((h e).0, Obeys-weaken (next s (commits_nvs e)) (g e) (h e).1 k)
  Obeys-weaken s (nvs_close p) h k = (h.0, Obeys-weaken (next s reads_nvs) p h.1 k)
  Obeys-weaken s spent h k = tt
