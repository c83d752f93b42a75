-- ===== src/Mode/Calls/Admission.antt =====
-- The functions of firmware/components/mode_state/mode_state.c that admit a client to the port: each
-- reads the mode word before and after it has asked the arbiter.
use air_dap.Ownership.Word.{
  owner_usb, owner_network, Result, ok, already_owner, not_owner, Claim, Operation, zero_claim,
  owner_diagnostic,
}
use air_dap.Ownership.Calls.{
  current, acquire, release, operation_begin, control_begin, operation_end,
}
use air_dap.Ownership.Revocation.{revoke_owner}
use air_dap.Mode.Program.{
  ModeProgram, returns, load_mode, add_inflight, sub_inflight, arbiter, after,
}
use air_dap.Mode.{
  usb_present, debug_shell_active, debug_shell_epoch_mask, usb_ota_epoch_mask, wifi_mask,
  wifi_epoch_mask, ota_mask, dap_route_mask, route_network, test_bit, get_route,
}
use air_dap.Mode.Calls.{
  DapResult, allowed, dap_busy, bad_argument, is_allowed, is_busy, dap_admission_for_control,
  ownership_result,
}
use air_dap.Prelude.{
  ℕ, ◌+◌, bit_and, bit_or, bit_xor, Bool, true, false, not, ◌&&◌, ◌||◌, Option, some, ◌==◌,
  if◌then◌else◌, is_some,
}

-- The parts of the word that decide about wired and wireless admission.
abbrev pub wired_mask : ℕ
wired_mask = usb_present + ota_mask + usb_ota_epoch_mask + dap_route_mask

abbrev pub wireless_mask : ℕ
wireless_mask = wifi_mask + wifi_epoch_mask

unfoldable pub dap_policy_stamp : ℕ → ℕ → ℕ
dap_policy_stamp control owner =
    let stamp = bit_and control wired_mask in
    if owner == owner_network then bit_or stamp (bit_and control wireless_mask) else stamp

-- `result == BUSY` on the second thought: what a caller is told when the policy has changed.
unfoldable pub latest_result : DapResult → DapResult
latest_result latest = if is_allowed latest then dap_busy else latest

-- After the claim has been taken.
unfoldable pub acquire_settle :
    ℕ → ℕ → Bool → Option Claim → DapResult → ModeProgram (DapResult × Option Claim)
acquire_settle before owner authenticated claim result = load_mode λ control.
    if dap_policy_stamp before owner == dap_policy_stamp control owner
    then returns (result, claim)
    else arbiter (release claim) λ released. elim released [
      | ok ↦
          after (dap_admission_for_control control owner authenticated false)
            (λ latest. returns (latest_result latest, claim))
      | not_owner ↦
          after (dap_admission_for_control control owner authenticated false)
            (λ latest. returns (latest_result latest, claim))
      | other ↦ returns (ownership_result other, claim)
    ]

-- What an answer of `airdap_dap_ownership_acquire` means.
unfoldable pub acquire_result : ℕ → Result → DapResult
acquire_result owner already_owner = if owner == owner_diagnostic then dap_busy else allowed
acquire_result owner other = ownership_result other

-- `result`, and the word that it was decided on, before the claim is taken.
unfoldable pub acquire_claim : ℕ → Bool → ℕ × DapResult → ModeProgram (DapResult × Option Claim)
acquire_claim owner authenticated (before, result) =
    if not (is_allowed result)
    then returns (result, some zero_claim)
    else arbiter (acquire owner (some zero_claim)) λ won.
      let admitted = acquire_result owner won.0 in
      if not (is_allowed admitted)
      then returns (admitted, won.1)
      else acquire_settle before owner authenticated won.1 admitted

-- The second admission, after a revocation.
unfoldable pub admit_again : ℕ → Bool → ModeProgram (ℕ × DapResult)
admit_again owner authenticated = load_mode λ control.
    after (dap_admission_for_control control owner authenticated false)
      (λ result. returns (control, result))

-- USB takes the port from the network.
unfoldable pub acquire_preempt : ℕ → Bool → ℕ → DapResult → ℕ → ModeProgram (ℕ × DapResult)
acquire_preempt owner authenticated before result holder =
    if holder == owner_network
    then arbiter (revoke_owner owner_network) (λ revoked. elim revoked [
      | ok ↦ admit_again owner authenticated
      | not_owner ↦ admit_again owner authenticated
      | other ↦ returns (before, ownership_result other)
    ])
    else returns (before, result)

-- The word that the claim is decided on, and the decision.
unfoldable pub acquire_admit : ℕ → Bool → ℕ → ModeProgram (ℕ × DapResult)
acquire_admit owner authenticated before =
    after (dap_admission_for_control before owner authenticated false) λ result.
      if is_busy result && owner == owner_usb && not (get_route before == route_network)
      then arbiter current (acquire_preempt owner authenticated before result)
      else returns (before, result)

-- `dap_acquire`
unfoldable pub dap_acquire : ℕ → Bool → Option Claim → ModeProgram (DapResult × Option Claim)
dap_acquire owner authenticated claim =
    if not (is_some claim)
    then returns (bad_argument, claim)
    else load_mode λ before.
      after (acquire_admit owner authenticated before) (acquire_claim owner authenticated)

unfoldable pub state_dap_acquire : ℕ → Bool → Option Claim → ModeProgram (DapResult × Option Claim)
state_dap_acquire owner authenticated claim =
    if owner == owner_usb
    then add_inflight
        (after (dap_acquire owner authenticated claim) (λ out. sub_inflight (returns out)))
    else dap_acquire owner authenticated claim

-- After an operation has begun: it is ended again where the policy has changed meanwhile. The test and
-- the second admission differ between the two callers.
unfoldable pub operation_settle :
    (ℕ → Bool)
    → (ℕ → ModeProgram DapResult)
    → Result × Option Operation
    → ModeProgram (DapResult × Option Operation)
operation_settle unchanged admission (begun, operation) =
    if not (is_allowed (ownership_result begun))
    then returns (ownership_result begun, operation)
    else load_mode λ control.
      if unchanged control
      then returns (allowed, operation)
      else arbiter (operation_end operation)
          λ ended. after (admission control) (λ latest. returns (latest_result latest, ended))

abbrev pub same_stamp : ℕ → ℕ → ℕ → Bool
same_stamp owner before control = dap_policy_stamp before owner == dap_policy_stamp control owner

unfoldable pub control_operation_begin :
    Bool → Option Operation → ModeProgram (DapResult × Option Operation)
control_operation_begin authenticated operation =
    if not (is_some operation)
    then returns (bad_argument, operation)
    else load_mode λ before.
      after (dap_admission_for_control before owner_network authenticated true) λ result.
        if not (is_allowed result)
        then returns (result, operation)
        else arbiter (control_begin owner_network operation) (
            operation_settle
              (λ control.
                same_stamp owner_network before control
                && not (
                    test_bit (bit_xor before control)
                      (debug_shell_active + debug_shell_epoch_mask)))
              (λ control. dap_admission_for_control control owner_network authenticated true))

unfoldable pub dap_operation_begin :
    ℕ → Bool → Option Claim → Option Operation → ModeProgram (DapResult × Option Operation)
dap_operation_begin owner authenticated claim operation =
    if not (is_some claim) || not (is_some operation)
    then returns (bad_argument, operation)
    else load_mode λ before.
      after (dap_admission_for_control before owner authenticated false) λ result.
        if not (is_allowed result)
        then returns (result, operation)
        else arbiter (operation_begin claim operation) (
            operation_settle (same_stamp owner before)
              (λ control. dap_admission_for_control control owner authenticated false))
