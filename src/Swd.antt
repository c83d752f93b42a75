-- ===== src/Swd.antt =====
-- SWD transfers of firmware/components/swd_engine/swd_protocol.c: what goes over the wire, as programs
-- of the operations that `airdap_swd_io_t` has. `esp_err_t` keeps the codes that the source names; any
-- other is `driver`.
pub mod Transfer
pub mod Request
pub mod Idle
pub mod Drive
pub mod Order
mod Examples
use air_dap.Prelude.{ℕ, zero, suc, ◌+◌, Bool, true, false, Option, none, some}

pub data EspError : Type 0 where
  ok invalid_arg invalid_response invalid_crc timed_out : EspError
  driver : ℕ → EspError

-- `airdap_swd_io_t`: its numbers, and which of its functions are not `NULL`.
pub record SwdIo : Type 0 where
  pub idle_cycles : ℕ
  pub data_phase : Bool
  pub has_set_host_output : Bool
  pub has_write_bits : Bool
  pub has_read_bits : Bool
  pub has_turnaround : Bool

pub record SwdRequest : Type 0 where
  pub port : ℕ
  pub direction : ℕ
  pub address : ℕ

-- Operations of the wire, each with what follows its answer.
pub data Bus (A : Type 0) : Type 0 where
  done : A → Bus A
  -- `io->set_host_output(io->context, enabled)`
  set_host_output : Bool → (EspError → Bus A) → Bus A
  -- `io->write_bits(io->context, bits, bit_count)`
  write_bits : ℕ → ℕ → (EspError → Bus A) → Bus A
  -- `io->read_bits(io->context, bit_count, &bits)`
  read_bits : ℕ → (EspError → ℕ → Bus A) → Bus A
  -- `io->turnaround(io->context, host_output)`
  turnaround : Bool → (EspError → Bus A) → Bus A

unfoldable pub bind : {A B : Type 0} → Bus A → (A → Bus B) → Bus B
bind (done a) f = f a
bind (set_host_output h k) f = set_host_output h (λ e. bind (k e) f)
bind (write_bits b n k) f = write_bits b n (λ e. bind (k e) f)
bind (read_bits n k) f = read_bits n (λ e b. bind (k e b) f)
bind (turnaround h k) f = turnaround h (λ e. bind (k e) f)

-- `if (error != ESP_OK) return error;`, and what follows.
unfoldable pub check : EspError → Bus EspError → Bus EspError
check ok next = next
check e next = done e

abbrev pub is_ok : EspError → Bool
is_ok ok = true
is_ok _ = false
