-- ===== src/Dap/Processor/Packet/Selection.antt =====
-- When the processor of firmware/components/dap_protocol/dap_protocol.c changes the selected port, and when
-- it leaves the backend alone.
use air_dap.Dap.{
  byte, id_connect, id_disconnect, id_transfer, id_transfer_block, id_write_abort, id_swj_sequence,
  id_swd_sequence, packet_size,
}
use air_dap.Dap.Processor.{Backend, DapProcessor, port_swd}
use air_dap.Dap.Processor.Packet.{
  process_write_abort, process_swj_sequence, process_command, process_packet,
}
use air_dap.Prelude.{
  ℕ, ◌≡◌, ◌≢◌, ◌⊎◌, inl, inr, arith, Bool, true, false, List, ◌==◌, ltb, ◌||◌, if◌then◌else◌,
  Bool-cases,
}
use air_dap.Dap.Processor.Packet.Ports.{
  process_command-port, process_transfer-quiet, process_transfer_block-quiet,
  process_swd_sequence-parts,
}

-- The commands that drive the target over SWD.
abbrev pub drives_target : ℕ → Bool
drives_target command =
    command == id_transfer
    || command == id_transfer_block
    || command == id_write_abort
    || command == id_swj_sequence
    || command == id_swd_sequence

quiet_command :
    {S : Type 0} (backend : Backend S) (processor : DapProcessor) (request : List ℕ)
    (request_length : ℕ) (response : List ℕ) (capacity : ℕ) (s : S)
    → processor.selected_port ≢ port_swd
    → drives_target (byte request 0) ≡ true
    → (process_command backend processor request request_length response capacity s).backend ≡ s
unfolding process_command process_write_abort process_swj_sequence
quiet_command backend processor request request_length response capacity s off target = ground (
  arith,
  process_transfer-quiet backend processor request request_length response capacity s off,
  process_transfer_block-quiet backend processor request request_length response capacity s off,
  (process_swd_sequence-parts backend processor request request_length response capacity s).1 off,
)

same_number : (a b : ℕ) → (a ≡ b) ⊎ (a ≢ b)
same_number a b = elim (Bool-cases (a == b)) [
  | inl e ↦ inl (ground (arith, e))
  | inr e ↦ inr (ground (arith, e))
]

module _ {S : Type 0} (backend : Backend S) (processor : DapProcessor) (request : List ℕ)
    (request_length : ℕ) (response : List ℕ) (capacity : ℕ) (s : S) where
  allowed : ℕ
  allowed = if ltb packet_size capacity then packet_size else capacity

  packet_changes :
      (process_packet backend processor request request_length response capacity
          s).processor.selected_port
        ≢ processor.selected_port
      → (byte request 0 ≡ id_connect) ⊎ (byte request 0 ≡ id_disconnect)
  unfolding process_packet allowed
  packet_changes changed =
      ground
        (arith, process_command-port backend processor request request_length response allowed s)

  packet_quiet :
      processor.selected_port ≢ port_swd
      → drives_target (byte request 0) ≡ true
      → (process_packet backend processor request request_length response capacity s).backend ≡ s
  unfolding process_packet allowed
  packet_quiet off target =
      ground (
        arith,
        quiet_command backend processor request request_length response allowed s off target,
      )

-- Only a CONNECT or a DISCONNECT changes the selected port; and unless the selected port is SWD, a
-- TRANSFER, TRANSFER_BLOCK, WRITE_ABORT, SWJ_SEQUENCE or SWD_SEQUENCE leaves the backend as it was.
pub process_packet-port :
    {S : Type 0} (backend : Backend S) (processor : DapProcessor) (request : List ℕ)
    (request_length : ℕ) (response : List ℕ) (capacity : ℕ) (s : S)
    → let out = process_packet backend processor request request_length response capacity s in
      ((out.processor.selected_port ≡ processor.selected_port)
        ⊎ (byte request 0 ≡ id_connect)
        ⊎ (byte request 0 ≡ id_disconnect))
      × ((processor.selected_port ≡ port_swd)
          ⊎ (drives_target (byte request 0) ≡ false)
          ⊎ (out.backend ≡ s))
process_packet-port backend processor request request_length response capacity s =
    (first (same_number _ _), second (same_number _ _))
  where
    first :
        ((process_packet backend processor request request_length response capacity
              s).processor.selected_port
            ≡ processor.selected_port)
          ⊎ ((process_packet backend processor request request_length response capacity
                s).processor.selected_port
              ≢ processor.selected_port)
        → ((process_packet backend processor request request_length response capacity
              s).processor.selected_port
            ≡ processor.selected_port)
          ⊎ (byte request 0 ≡ id_connect)
          ⊎ (byte request 0 ≡ id_disconnect)
    first (inl e) = inl e
    first (inr e) =
        inr (packet_changes backend processor request request_length response capacity s e)

    second :
        (processor.selected_port ≡ port_swd) ⊎ (processor.selected_port ≢ port_swd)
        → (processor.selected_port ≡ port_swd)
          ⊎ (drives_target (byte request 0) ≡ false)
          ⊎ ((process_packet backend processor request request_length response capacity s).backend
              ≡ s)
    second (inl e) = inl e
    second (inr e) = inr (elim (Bool-cases (drives_target (byte request 0))) [
      | inl t ↦ inr (packet_quiet backend processor request request_length response capacity s e t)
      | inr t ↦ inl t
    ])
