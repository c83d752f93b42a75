-- ===== src/ShellTx/Tickets.antt =====
-- What a ticket promises.
use air_dap.ShellTx.{
  TxState, Ticket, pending, complete, cancelled, next_generation, tx_connected, tx_disconnected,
  tx_reserve, tx_commit, tx_completed, tx_status, Change, connects, disconnects, reserves,
  initialises, completes, commits, change,
}
use air_dap.Prelude.{
  ℕ, ◌+◌, ◌^◌, ◌≤◌, ◌<◌, ◌≡◌, ◌≢◌, refl, arith, Bool, true, false, not, ◌&&◌, some, List, [], ◌∷◌,
  length, if◌then◌else◌, leb,
}

abbrev is_init : Change → Bool
is_init initialises = true
is_init _ = false

-- No call of these is the initialisation, which starts the generations again.
unfoldable pub without_init : List Change → Bool
without_init [] = true
without_init (c ∷ cs) = not (is_init c) && without_init cs

pub changes : TxState → List Change → TxState
changes s [] = s
changes s (c ∷ cs) = changes (change s c) cs

change-generation :
    (s : TxState) (c : Change)
    → is_init c ≡ false
    → s.generation + 1 < 2 ^ 64
    → (s.generation ≤ (change s c).generation) × ((change s c).generation ≤ s.generation + 1)
unfolding change tx_connected tx_disconnected tx_reserve tx_commit tx_completed next_generation
change-generation s initialises n h = absurd (cc)
change-generation s connects n h = ground arith
change-generation s disconnects n h = ground arith
change-generation s (reserves m) n h = ground arith
change-generation s (completes m) n h = ground arith
change-generation s (commits r m) n h = ground arith

changes-generation :
    (s : TxState) (cs : List Change)
    → without_init cs ≡ true
    → s.generation + length cs < 2 ^ 64
    → s.generation ≤ (changes s cs).generation
unfolding changes without_init
changes-generation s [] w h = omega arith
changes-generation s (c ∷ cs) w h =
    let one = change-generation s c (ground (arith, w)) (omega arith) in
    omega (arith, one, changes-generation (change s c) cs (ground (arith, w)) (omega (arith, one)))

tx_status-old :
    (s : TxState) (ticket : Ticket)
    → ticket.generation < s.generation
    → tx_status (some s) ticket ≡ cancelled
unfolding tx_status
tx_status-old s ticket h = ground arith

-- A ticket of a connection that has ended, or of an earlier one, is CANCELLED from then on, whatever is
-- called afterwards but the initialisation, and whether or not the host connects again, as long as the
-- 64-bit generation has not gone round.
pub ended_connection :
    (s : TxState) (ticket : Ticket) (cs : List Change)
    → s.connected ≡ true
    → ticket.generation ≤ s.generation
    → without_init cs ≡ true
    → s.generation + length cs + 1 < 2 ^ 64
    → tx_status (some (changes (tx_disconnected s) cs)) ticket ≡ cancelled
unfolding tx_disconnected next_generation
ended_connection s ticket cs up old plain few = tx_status-old _ ticket newer
  where
    stepped : (tx_disconnected s).generation ≡ s.generation + 1
    stepped = ground arith

    newer : ticket.generation < (changes (tx_disconnected s) cs).generation
    newer =
        omega
          (arith, stepped, changes-generation (tx_disconnected s) cs plain (omega (arith, stepped)))

tx_reserve_lem :
    (s : TxState) (requested : ℕ)
    → s.connected ≡ true
    → 0 < requested
    → s.accepted_bytes + requested < 2 ^ 64
    → tx_reserve s requested ≡ (
      record { generation = s.generation; reserved_bytes = requested; valid = true },
      record s { accepted_bytes = s.accepted_bytes + requested },
    )
unfolding tx_reserve
tx_reserve_lem s requested up some_bytes small = ground arith

-- A successful `reserve` and the `commit` after it.
issued :
    (s : TxState) (requested taken : ℕ)
    → s.connected ≡ true
    → 0 < requested
    → s.accepted_bytes + requested < 2 ^ 64
    → taken ≤ requested
    → tx_commit (tx_reserve s requested).1 (tx_reserve s requested).0 taken ≡ (
      record { generation = s.generation; target_bytes = s.accepted_bytes + taken; valid = true },
      record s { accepted_bytes = s.accepted_bytes + taken },
    )
unfolding tx_commit
issued s requested taken up some_bytes small part = rw reserved (ground arith)
  where
    reserved : tx_reserve s requested ≡ (
      record { generation = s.generation; reserved_bytes = requested; valid = true },
      record s { accepted_bytes = s.accepted_bytes + requested },
    )
    reserved = tx_reserve_lem s requested up some_bytes small

sent_status :
    (s : TxState) (target sent : ℕ)
    → s.connected ≡ true
    → s.accepted_bytes < 2 ^ 64
    → s.completed_bytes + sent ≤ s.accepted_bytes
    → tx_status
        (some (tx_completed s sent))
        (record { generation = s.generation; target_bytes = target; valid = true })
      ≡ (if leb target (s.completed_bytes + sent) then complete else pending)
unfolding tx_completed tx_status
sent_status s target sent up small reported = ground arith

-- While the host is connected, and where the reservation does not wrap the counter: a reservation of
-- which `taken` bytes are accepted gives a valid ticket and counts just these bytes; and after `sent`
-- bytes are reported, not more than are outstanding, the ticket is COMPLETE if what was sent reaches its
-- bytes, and PENDING otherwise.
pub reserve-commit :
    (s : TxState) (requested taken sent : ℕ)
    → s.connected ≡ true
    → 0 < requested
    → s.accepted_bytes + requested < 2 ^ 64
    → taken ≤ requested
    → s.completed_bytes + sent ≤ s.accepted_bytes + taken
    → let (reservation, reserved) = tx_reserve s requested in
      let (ticket, committed) = tx_commit reserved reservation taken in
      (ticket.valid ≡ true)
      × (committed ≡ record s { accepted_bytes = s.accepted_bytes + taken })
      × (tx_status (some (tx_completed committed sent)) ticket ≡ (
          if leb (s.accepted_bytes + taken) (s.completed_bytes + sent) then complete else pending))
reserve-commit s requested taken sent up some_bytes small part reported =
    rw (issued s requested taken up some_bytes small part) (
      refl,
      refl,
      sent_status (record s { accepted_bytes = s.accepted_bytes + taken })
          (s.accepted_bytes + taken) sent up (omega arith) reported,
    )

-- COMPLETE is final while the connection lasts: with counters of 64 bits, no call but the disconnection
-- and the initialisation takes it back.
pub complete-stays :
    (s : TxState) (ticket : Ticket) (c : Change)
    → s.accepted_bytes < 2 ^ 64
    → s.completed_bytes < 2 ^ 64
    → tx_status (some s) ticket ≡ complete
    → c ≢ disconnects
    → c ≢ initialises
    → tx_status (some (change s c)) ticket ≡ complete
unfolding change tx_connected tx_reserve tx_commit tx_completed tx_status
complete-stays s ticket initialises b b' e n i = absurd (i refl)
complete-stays s ticket connects b b' e n i = ground arith
complete-stays s ticket disconnects b b' e n i = absurd (n refl)
complete-stays s ticket (reserves m) b b' e n i = ground arith
complete-stays s ticket (completes m) b b' e n i = ground arith
complete-stays s ticket (commits r m) b b' e n i = ground arith
