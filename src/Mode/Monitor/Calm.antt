-- ===== src/Mode/Monitor/Calm.antt =====
-- The calls of firmware/components/mode_state/mode_state.c that admit a client, under a monitor in a
-- state in which reading the mode word and asking the arbiter are permitted and change nothing.
use air_dap.Ownership.Program.{Program, ret}
use air_dap.Ownership.Word.{
  owner_usb, owner_network, Result, ok, already_owner, busy, not_owner, offline, invalid_argument,
  invalid_state, Claim, zero_claim, owner_none, control_generation,
}
use air_dap.Ownership.Calls.{current, acquire, release, release_pins_to}
use air_dap.Ownership.Revocation.{revoke_owner, revoke_owner_from}
use air_dap.Mode.{get_route, route_network}
use air_dap.Mode.Program.{ModeProgram, returns, load_mode, arbiter, after}
use air_dap.Mode.Calls.{
  DapResult, allowed, dap_busy, dap_offline, unauthenticated, bad_argument, bad_state,
  storage_failed, is_allowed, is_busy, dap_policy, dap_admission_for_control, ownership_result,
}
use air_dap.Mode.Calls.Admission.{
  dap_policy_stamp, latest_result, acquire_settle, acquire_result, acquire_claim, admit_again,
  acquire_preempt, acquire_admit, dap_acquire,
}
use air_dap.Mode.Monitor.{
  Seen, reads_mode, asks_arbiter, Yields, Yields-any, Obeys, Obeys-after, Obeys-arbiter, Obeys-if,
}
use air_dap.Prelude.{
  ℕ, ◌≡◌, sym, subst, refl, Bool, true, false, not, ◌&&◌, Option, some, ◌==◌, is_some, arith,
  if◌then◌else◌,
}

pub latest_result_lem : (r : DapResult) → is_allowed (latest_result r) ≡ false
unfolding latest_result
latest_result_lem allowed = refl
latest_result_lem dap_busy = refl
latest_result_lem dap_offline = refl
latest_result_lem unauthenticated = refl
latest_result_lem bad_argument = refl
latest_result_lem bad_state = refl
latest_result_lem storage_failed = refl

abbrev pub already : Result → Bool
already already_owner = true
already _ = false

release_pins_to-fresh :
    (generation state : ℕ) → Yields (λ r. already r ≡ false) (release_pins_to generation state ret)
unfolding release_pins_to
release_pins_to-fresh generation state = ground arith

-- A revocation does not answer that the port was held already.
revoke_owner_from-fresh :
    (owner control : ℕ) → Yields (λ r. already r ≡ false) (revoke_owner_from owner control)
unfolding revoke_owner_from
revoke_owner_from-fresh owner control =
    ground (arith, release_pins_to-fresh (control_generation control) owner_none)

revoke_owner-fresh : (owner : ℕ) → Yields (λ r. already r ≡ false) (revoke_owner owner)
unfolding revoke_owner
revoke_owner-fresh owner = grind (arith, revoke_owner_from-fresh owner)

-- A client that the policy refuses whatever the mode is, and a result that such a client may get.
module _ (owner : ℕ) (authenticated board_control : Bool) where
  abbrev pub Refused : Type 0
  Refused = (c : ℕ) → is_allowed (dap_policy c owner authenticated board_control) ≡ false

  abbrev pub Refuses : DapResult → Type 0
  Refuses r = Refused → is_allowed r ≡ false

module _ {S : Type 0} (permits : S → Seen → Type 0) (next : S → Seen → S) (s : S)
    (may_read : permits s reads_mode) (read_stays : next s reads_mode ≡ s)
    (may_ask : permits s asks_arbiter) (ask_stays : next s asks_arbiter ≡ s) where
  -- Every result satisfies `P`, and the monitor is where it was.
  abbrev pub Calm : {A : Type 0} → (A → Type 0) → ModeProgram A → Type 0
  Calm P p = Obeys permits next (λ t a. (t ≡ s) × P a) s p

  pub Calm-after :
      {A B : Type 0} (P : A → Type 0) (Q : B → Type 0) (f : A → ModeProgram B) (p : ModeProgram A)
      → Calm P p
      → ((a : A) → P a → Calm Q (f a))
      → Calm Q (after p f)
  Calm-after P Q f p h k =
      Obeys-after permits next (λ t a. (t ≡ s) × P a) (λ t b. (t ≡ s) × Q b) f s p h
        λ t a g.
          subst (λ (u : S). Obeys permits next (λ t b. (t ≡ s) × Q b) u (f a)) (sym g.0) (k a g.1)

  pub Calm-load :
      {A : Type 0} (P : A → Type 0) (k : ℕ → ModeProgram A)
      → ((v : ℕ) → Calm P (k v))
      → Calm P (load_mode k)
  Calm-load P k h = (
    may_read,
    λ v _.
        subst (λ (u : S). Obeys permits next (λ t a. (t ≡ s) × P a) u (k v)) (sym read_stays) (h v),
  )

  pub Calm-ask :
      {A B : Type 0} (P : A → Type 0) (Q : B → Type 0) (f : A → ModeProgram B) (p : Program A)
      → Yields P p
      → ((a : A) → P a → Calm Q (f a))
      → Calm Q (arbiter p f)
  Calm-ask P Q f p h k =
      Obeys-arbiter permits next P (λ t b. (t ≡ s) × Q b) f s p may_ask ask_stays h k

  -- Whatever the arbiter answers.
  pub Calm-ask_any :
      {A B : Type 0} (Q : B → Type 0) (f : A → ModeProgram B) (p : Program A)
      → ((a : A) → Calm Q (f a))
      → Calm Q (arbiter p f)
  Calm-ask_any Q f p k =
      Calm-ask (λ _. Unit) Q f p (Yields-any (λ _. Unit) (λ _. tt) p) (λ a _. k a)

  pub Calm-if :
      {A : Type 0} (P : A → Type 0) (b : Bool) (p q : ModeProgram A)
      → (b ≡ true → Calm P p)
      → (b ≡ false → Calm P q)
      → Calm P (if b then p else q)
  Calm-if P b p q = Obeys-if permits next (λ t a. (t ≡ s) × P a) s b p q

  module _ (owner : ℕ) (authenticated board_control : Bool) where
    pub admission-Calm :
        (control : ℕ)
        → Calm
            (Refuses owner authenticated board_control)
            (dap_admission_for_control control owner authenticated board_control)
    unfolding dap_admission_for_control
    admission-Calm control =
        Calm-if (Refuses owner authenticated board_control)
          (not (is_allowed (dap_policy control owner authenticated board_control))) _ _
          (λ _. (refl, λ no. no control))
          (λ e.
            Calm-ask_any (Refuses owner authenticated board_control) _ current
              (λ holder. (refl, λ no. absurd (ground (arith, no control)))))

  -- Acquisition.
  module _ (owner : ℕ) (authenticated : Bool) where
    abbrev RefusesClaim : DapResult × Option Claim → Type 0
    RefusesClaim out = Refuses owner authenticated false out.0

    abbrev RefusesAt : ℕ × DapResult → Type 0
    RefusesAt r = Refuses owner authenticated false r.1

    -- A second admission, and what it becomes.
    again-Calm :
        {A : Type 0} (P : A → Type 0) (control : ℕ) (f : DapResult → ModeProgram A)
        → ((r : DapResult) → Refuses owner authenticated false r → Calm P (f r))
        → Calm P (after (dap_admission_for_control control owner authenticated false) f)
    again-Calm P control f h =
        Calm-after (Refuses owner authenticated false) P f _
          (admission-Calm owner authenticated false control) h

    -- The claim of a client that the policy does admit for some word.
    acquire_settle-Calm :
        (before : ℕ) (claim : Option Claim) (result : DapResult)
        → ¬ Refused owner authenticated false
        → Calm RefusesClaim (acquire_settle before owner authenticated claim result)
    unfolding acquire_settle
    acquire_settle-Calm before claim result never = Calm-load RefusesClaim _ λ control.
        Calm-if RefusesClaim (dap_policy_stamp before owner == dap_policy_stamp control owner) _ _
          (λ _. (refl, vacuous result))
          (λ _. Calm-ask_any RefusesClaim _ (release claim) (released control))
      where
        vacuous : (r : DapResult) → Refuses owner authenticated false r
        vacuous r = λ g. absurd (never g)

        latest :
            (control : ℕ)
            → Calm RefusesClaim (
                after
                  (dap_admission_for_control control owner authenticated false)
                  (λ latest. returns (latest_result latest, claim)))
        latest control = again-Calm RefusesClaim control _ (λ r _. (refl, vacuous _))

        released :
            (control : ℕ) (r : Result)
            → Calm RefusesClaim (elim r [
              | ok ↦
                  after
                    (dap_admission_for_control control owner authenticated false)
                    (λ latest. returns (latest_result latest, claim))
              | not_owner ↦
                  after
                    (dap_admission_for_control control owner authenticated false)
                    (λ latest. returns (latest_result latest, claim))
              | other ↦ returns (ownership_result other, claim)
            ])
        released control ok = latest control
        released control not_owner = latest control
        released control already_owner = (refl, vacuous _)
        released control busy = (refl, vacuous _)
        released control offline = (refl, vacuous _)
        released control invalid_argument = (refl, vacuous _)
        released control invalid_state = (refl, vacuous _)

    acquire_claim-Calm :
        (r : ℕ × DapResult) → RefusesAt r → Calm RefusesClaim (acquire_claim owner authenticated r)
    unfolding acquire_claim
    acquire_claim-Calm (before, result) h =
        Calm-if RefusesClaim (not (is_allowed result)) _ _ (λ _. (refl, h))
          λ e. Calm-ask_any RefusesClaim _ (acquire owner (some zero_claim)) λ won.
            Calm-if RefusesClaim (not (is_allowed (acquire_result owner won.0))) _ _
              (λ g. (refl, λ _. denied (acquire_result owner won.0) g))
              (λ _. acquire_settle-Calm before won.1 _ (never e))
      where
        denied : (r : DapResult) → not (is_allowed r) ≡ true → is_allowed r ≡ false
        denied r g = ground (arith, g)

        never : not (is_allowed result) ≡ false → ¬ Refused owner authenticated false
        never e g = absurd (ground (arith, e, h g))

    admit_again-Calm : Calm RefusesAt (admit_again owner authenticated)
    unfolding admit_again
    admit_again-Calm =
        Calm-load RefusesAt _ (λ control. again-Calm RefusesAt control _ (λ r h. (refl, h)))

    acquire_preempt-Calm :
        (before : ℕ) (result : DapResult) (holder : ℕ)
        → Refuses owner authenticated false result
        → Calm RefusesAt (acquire_preempt owner authenticated before result holder)
    unfolding acquire_preempt ownership_result
    acquire_preempt-Calm before result holder h =
        Calm-if RefusesAt (holder == owner_network) _ _
          (λ _.
            Calm-ask (λ r. already r ≡ false) RefusesAt _ _ (revoke_owner-fresh owner_network)
              revoked)
          (λ _. (refl, h))
      where
        revoked :
            (r : Result)
            → already r ≡ false
            → Calm RefusesAt (elim r [
              | ok ↦ admit_again owner authenticated
              | not_owner ↦ admit_again owner authenticated
              | other ↦ returns (before, ownership_result other)
            ])
        revoked ok g = admit_again-Calm
        revoked not_owner g = admit_again-Calm
        revoked already_owner g = absurd (cc)
        revoked busy g = (refl, λ _. refl)
        revoked offline g = (refl, λ _. refl)
        revoked invalid_argument g = (refl, λ _. refl)
        revoked invalid_state g = (refl, λ _. refl)

    acquire_admit-Calm : (before : ℕ) → Calm RefusesAt (acquire_admit owner authenticated before)
    unfolding acquire_admit
    acquire_admit-Calm before = again-Calm RefusesAt before _ λ result h.
        Calm-if RefusesAt
          (is_busy result && owner == owner_usb && not (get_route before == route_network)) _ _
          (λ _.
            Calm-ask_any RefusesAt _ current
              (λ holder. acquire_preempt-Calm before result holder h))
          (λ _. (refl, h))

    pub dap_acquire-Calm :
        (claim : Option Claim) → Calm RefusesClaim (dap_acquire owner authenticated claim)
    unfolding dap_acquire
    dap_acquire-Calm claim =
        Calm-if RefusesClaim (not (is_some claim)) _ _ (λ _. (refl, λ _. refl))
          λ _. Calm-load RefusesClaim _ λ before.
            Calm-after RefusesAt RefusesClaim _ _ (acquire_admit-Calm before) acquire_claim-Calm
