-- ===== src/ShellTx/Examples.antt =====
-- The theorems on tickets at concrete states.
use air_dap.ShellTx.{
  TxState, Ticket, complete, cancelled, tx_disconnected, tx_status, connects, reserves, completes,
}
use air_dap.ShellTx.Tickets.{changes, without_init, ended_connection}
use air_dap.Prelude.{◌≡◌, refl, arith, true, some, [], ◌∷◌}

-- Ten bytes accepted, four of them sent.
abbrev connection : TxState
connection = record { generation = 3; accepted_bytes = 10; completed_bytes = 4; connected = true }

abbrev ticket : Ticket
ticket = record { generation = 3; target_bytes = 4; valid = true }

connection-complete : tx_status (some connection) ticket ≡ complete
unfolding tx_status
connection-complete = refl

plain_calls : without_init (connects ∷ reserves 5 ∷ completes 5 ∷ []) ≡ true
unfolding without_init
plain_calls = refl

ended_connection_example :
    tx_status
      (some (changes (tx_disconnected connection) (connects ∷ reserves 5 ∷ completes 5 ∷ [])))
      ticket
    ≡ cancelled
ended_connection_example =
    ended_connection connection ticket (connects ∷ reserves 5 ∷ completes 5 ∷ []) refl (omega arith)
      plain_calls (omega arith)
