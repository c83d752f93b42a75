-- ===== src/ShellTx.antt =====
-- The accounting of the debug shell's output: firmware/components/usb_device/debug_shell_tx_state.c.
-- A pointer is an `Option`; `none` is `NULL`.
pub mod Tickets
mod Examples
use air_dap.Prelude.{
  ℕ, ◌+◌, ◌-◌, ◌^◌, ◌%◌, Bool, true, false, not, ◌||◌, ◌&&◌, Option, none, some, ltb, leb, ◌==◌,
  if◌then◌else◌,
}

pub record TxState : Type 0 where
  pub generation : ℕ
  pub accepted_bytes : ℕ
  pub completed_bytes : ℕ
  pub connected : Bool

pub record Reservation : Type 0 where
  pub generation : ℕ
  pub reserved_bytes : ℕ
  pub valid : Bool

pub record Ticket : Type 0 where
  pub generation : ℕ
  pub target_bytes : ℕ
  pub valid : Bool

pub data TxStatus : Type 0 where
  pending complete cancelled : TxStatus

abbrev pub no_reservation : Reservation
no_reservation = record { generation = 0; reserved_bytes = 0; valid = false }

abbrev pub no_ticket : Ticket
no_ticket = record { generation = 0; target_bytes = 0; valid = false }

abbrev initial_state : TxState
initial_state = record {
  generation = 0;
  accepted_bytes = 0;
  completed_bytes = 0;
  connected = false;
}

unfoldable pub tx_init : Option TxState → Option TxState
tx_init none = none
tx_init (some _) = some initial_state

-- `++state->generation`, and once more at zero.
unfoldable pub next_generation : ℕ → ℕ
next_generation generation =
    let next = (generation + 1) % 2 ^ 64 in if next == 0 then (next + 1) % 2 ^ 64 else next

unfoldable pub tx_connected : TxState → TxState
tx_connected state = if state.connected then state else record {
  generation = next_generation state.generation;
  accepted_bytes = 0;
  completed_bytes = 0;
  connected = true;
}

unfoldable pub tx_disconnected : TxState → TxState
tx_disconnected state =
    if not state.connected
    then state
    else record state { connected = false; generation = next_generation state.generation }

unfoldable pub tx_reserve : TxState → ℕ → Reservation × TxState
tx_reserve state requested_bytes =
    if not state.connected || requested_bytes == 0 then (no_reservation, state) else (
      record { generation = state.generation; reserved_bytes = requested_bytes; valid = true },
      record state { accepted_bytes = (state.accepted_bytes + requested_bytes) % 2 ^ 64 },
    )

unfoldable pub tx_commit : TxState → Reservation → ℕ → Ticket × TxState
tx_commit state reservation accepted_bytes =
    let remaining = state.accepted_bytes - (reservation.reserved_bytes - accepted_bytes) in
    if not state.connected
      || not reservation.valid
      || not (reservation.generation == state.generation)
      || ltb reservation.reserved_bytes accepted_bytes
      || ltb state.accepted_bytes reservation.reserved_bytes
    then (no_ticket, state)
    else (
      record { generation = reservation.generation; target_bytes = remaining; valid = true },
      record state { accepted_bytes = remaining },
    )

unfoldable pub tx_completed : TxState → ℕ → TxState
tx_completed state completed_bytes =
    let outstanding =
      if ltb state.completed_bytes state.accepted_bytes
      then state.accepted_bytes - state.completed_bytes
      else 0 in
    let added = if ltb completed_bytes outstanding then completed_bytes else outstanding in
    if state.connected && ltb 0 completed_bytes
    then record state { completed_bytes = (state.completed_bytes + added) % 2 ^ 64 }
    else state

unfoldable pub tx_status : Option TxState → Ticket → TxStatus
tx_status none ticket = cancelled
tx_status (some state) ticket =
    if not ticket.valid || not state.connected || not (ticket.generation == state.generation)
    then cancelled
    else if leb ticket.target_bytes state.completed_bytes
    then complete
    else pending

-- The calls that change the state, the initialisation included.
pub data Change : Type 0 where
  initialises : Change
  connects disconnects : Change
  reserves completes : ℕ → Change
  commits : Reservation → ℕ → Change

unfoldable pub change : TxState → Change → TxState
change state initialises = initial_state
change state connects = tx_connected state
change state disconnects = tx_disconnected state
change state (reserves n) = (tx_reserve state n).1
change state (completes n) = tx_completed state n
change state (commits reservation n) = (tx_commit state reservation n).1
