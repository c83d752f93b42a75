-- ===== src/Mode/Monitor/Preemption.antt =====
-- The count of USB preemptions in flight of firmware/components/mode_state/mode_state.c: what stands
-- between its increment and its decrement.
use air_dap.Ownership.Word.{owner_usb, owner_network, Claim}
use air_dap.Ownership.Revocation.{revoke_owner}
use air_dap.Mode.{
  usb_attached, fine, illegal_state, next_control, test_bit, initialized, get_route, route_network,
}
use air_dap.Mode.Program.{ModeProgram, arbiter}
use air_dap.Mode.Calls.{transition_loop, transition, leave, is_fine}
use air_dap.Mode.Calls.Admission.{dap_acquire, state_dap_acquire}
use air_dap.Mode.Monitor.{
  Seen, adds_inflight, subs_inflight, resets_inflight, Obeys, Obeys-if, Obeys-after, Obeys-arbiter,
  Yields-any,
}
use air_dap.Mode.Monitor.Calm.{Refuses, dap_acquire-Calm}
use air_dap.Prelude.{ℕ, zero, suc, ◌≡◌, refl, Bool, true, false, not, Option, ◌==◌, if◌then◌else◌}

-- Where a call is: it has not raised the count, it is counted, or it has lowered the count again.
pub data Phase : Type 0 where
  uncounted : Phase
  counted : Phase
  lowered : Phase

-- The count is raised once, then lowered once, and every other action stands in between. Nothing leads
-- back to `uncounted`.
abbrev pub Inside : Phase → Seen → Type 0
Inside phase adds_inflight = phase ≡ uncounted
Inside phase subs_inflight = phase ≡ counted
Inside phase resets_inflight = ⊥
Inside phase _ = phase ≡ counted

abbrev pub counts : Phase → Seen → Phase
counts phase adds_inflight = counted
counts phase subs_inflight = lowered
counts phase _ = phase

-- Uncounted at the start, counted at every access, and lowered at the end.
abbrev pub Counted : {A : Type 0} → ModeProgram A → Type 0
Counted p = Obeys Inside counts (λ t _. t ≡ lowered) uncounted p

abbrev Leaves : {A : Type 0} → ModeProgram A → Type 0
Leaves p = Obeys Inside counts (λ t _. t ≡ lowered) counted p

leave-Leaves : {A : Type 0} (result : A) → Leaves (leave true result)
unfolding leave
leave-Leaves result = (refl, refl)

-- The loop of an attach, which is counted when it starts.
transition_loop-Leaves : (fuel control : ℕ) → Leaves (transition_loop fuel usb_attached control)
unfolding transition_loop
transition_loop-Leaves zero control = tt
transition_loop-Leaves (suc fuel) control =
    Obeys-if Inside counts (λ t _. t ≡ lowered) counted (not (test_bit control initialized)) _ _
      (λ _. leave-Leaves illegal_state)
      (λ _.
        Obeys-if Inside counts (λ t _. t ≡ lowered) counted
          (not (is_fine (next_control control usb_attached).0)) _ _
          (λ _. leave-Leaves (next_control control usb_attached).0)
          (λ _. (refl, moved, λ v _. transition_loop-Leaves fuel v)))
  where
    moved : Leaves (
        if not (get_route (next_control control usb_attached).1 == route_network)
        then arbiter (revoke_owner owner_network) (λ _. leave true fine)
        else leave true fine)
    moved =
        Obeys-if Inside counts (λ t _. t ≡ lowered) counted
          (not (get_route (next_control control usb_attached).1 == route_network)) _ _
          (λ _.
            Obeys-arbiter Inside counts (λ _. Unit) (λ t _. t ≡ lowered) (λ _. leave true fine)
              counted (revoke_owner owner_network) refl refl
              (Yields-any (λ _. Unit) (λ _. tt) (revoke_owner owner_network))
              (λ r _. leave-Leaves fine))
          (λ _. leave-Leaves fine)

-- Whatever other threads do and the arbiter answers: an attach of USB, and a taking of the port by
-- USB, raise the count of preemptions exactly once, before they first read the mode word, keep it raised
-- at every access of that word and of the arbiter, the revocation of the network included, and lower it
-- exactly once, as the last action before they return, on every path.
pub usb_preemption-Counted :
    (fuel : ℕ) (authenticated : Bool) (claim : Option Claim)
    → Counted (transition fuel usb_attached)
      × Counted (state_dap_acquire owner_usb authenticated claim)
unfolding transition state_dap_acquire
usb_preemption-Counted fuel authenticated claim = (
  (refl, (refl, λ v _. transition_loop-Leaves fuel v)),
  (
    refl,
    Obeys-after Inside counts (λ t out. (t ≡ counted) × Refuses owner_usb authenticated false out.0)
        (λ t _. t ≡ lowered) _ counted (dap_acquire owner_usb authenticated claim)
        (dap_acquire-Calm Inside counts counted refl refl refl refl owner_usb authenticated claim)
        (λ t out h. (h.0, refl)),
  ),
)
