-- ===== src/Swd/Examples.antt =====
-- The theorems on SWD transfers at concrete requests.
use air_dap.Swd.{ok, SwdIo, SwdRequest}
use air_dap.Swd.Transfer.{
  request_is_valid, encode_request, send, receive, with_outputs, protocol_transfer,
  write_idle_cycles,
}
use air_dap.Swd.Drive.{Orderly, by_host}
use air_dap.Swd.Order.{transfer-Orderly}
use air_dap.Swd.Request.{Asks, encode_request-Asks, receive-send, ones}
use air_dap.Swd.Idle.{sizes, sum, write_idle_cycles-sizes}
use air_dap.Prelude.{
  ◌<◌, ◌%◌, ◌^◌, ◌≤◌, ◌≡◌, refl, arith, true, false, some, All, ◌==◌, if◌then◌else◌,
}

abbrev wire : SwdIo
wire = record {
  idle_cycles = 8;
  data_phase = false;
  has_set_host_output = true;
  has_write_bits = true;
  has_read_bits = true;
  has_turnaround = true;
}

-- A read of the AP register at 12.
abbrev read_drw : SwdRequest
read_drw = record { port = 1; direction = 1; address = 12 }

read_drw-valid : request_is_valid (some read_drw) ≡ true
unfolding request_is_valid
read_drw-valid = refl

transfer-Orderly_example :
    Orderly
      (λ h out. out.0 ≡ ok → h ≡ by_host)
      by_host
      (protocol_transfer (some wire) (some read_drw) (some 0) 5 (some 0))
transfer-Orderly_example = transfer-Orderly (some wire) (some read_drw) (some 0) 5 (some 0)

encode_request-Asks_example : Asks (encode_request read_drw) read_drw
encode_request-Asks_example = encode_request-Asks read_drw read_drw-valid

receive-send_example :
    (send 0x2ba01477 < 2 ^ 33)
    × (send 0x2ba01477 % 2 ^ 32 ≡ 0x2ba01477)
    × (ones 33 (send 0x2ba01477) % 2 ≡ 0)
    × (receive 0 1 (send 0x2ba01477) ≡ with_outputs 0x2ba01477 1 ok)
receive-send_example = receive-send 0x2ba01477 0 1 (omega arith)

write_idle_cycles-sizes_example :
    let (ns, e) = sizes (write_idle_cycles 65) in
    (sum ns ≡ (if 65 == 1 then 2 else 65)) × All (λ k. (2 ≤ k) × (k ≤ 64)) ns × (e ≡ ok)
write_idle_cycles-sizes_example = write_idle_cycles-sizes 65
