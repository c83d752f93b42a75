-- ===== src/Dap.antt =====
-- The CMSIS-DAP command protocol of firmware/components/dap_protocol: its constants.
pub mod Request
pub mod Processor
mod Examples
use air_dap.Prelude.{ℕ, ◌+◌, ◌*◌, ◌%◌, ◌^◌, bit_or, List, get_or}

abbrev pub buffer_size : ℕ
buffer_size = 512

abbrev pub packet_size : ℕ
packet_size = 508

-- `SIZE_MAX` of the 32-bit target.
abbrev pub size_max : ℕ
size_max = 0xffff_ffff

abbrev pub id_info : ℕ
id_info = 0x00

abbrev pub id_host_status : ℕ
id_host_status = 0x01

abbrev pub id_connect : ℕ
id_connect = 0x02

abbrev pub id_disconnect : ℕ
id_disconnect = 0x03

abbrev pub id_transfer_configure : ℕ
id_transfer_configure = 0x04

abbrev pub id_transfer : ℕ
id_transfer = 0x05

abbrev pub id_transfer_block : ℕ
id_transfer_block = 0x06

abbrev pub id_write_abort : ℕ
id_write_abort = 0x08

abbrev pub id_delay : ℕ
id_delay = 0x09

abbrev pub id_reset_target : ℕ
id_reset_target = 0x0a

abbrev pub id_swj_pins : ℕ
id_swj_pins = 0x10

abbrev pub id_swj_clock : ℕ
id_swj_clock = 0x11

abbrev pub id_swj_sequence : ℕ
id_swj_sequence = 0x12

abbrev pub id_swd_configure : ℕ
id_swd_configure = 0x13

abbrev pub id_swd_sequence : ℕ
id_swd_sequence = 0x1d

abbrev pub id_ota_query : ℕ
id_ota_query = 0x80

abbrev pub id_ota_begin : ℕ
id_ota_begin = 0x81

abbrev pub id_ota_write : ℕ
id_ota_write = 0x82

abbrev pub id_ota_commit : ℕ
id_ota_commit = 0x83

abbrev pub id_ota_abort : ℕ
id_ota_abort = 0x84

abbrev pub id_ota_reboot : ℕ
id_ota_reboot = 0x85

abbrev pub transfer_read : ℕ
transfer_read = 2

abbrev pub transfer_match_value : ℕ
transfer_match_value = 16

abbrev pub ota_write_header_size : ℕ
ota_write_header_size = 7

abbrev pub ota_max_write_size : ℕ
ota_max_write_size = 496

-- `data[i]`
abbrev pub byte : List ℕ → ℕ → ℕ
byte bytes i = get_or bytes i 0

unfoldable pub read_u16 : List ℕ → ℕ → ℕ
read_u16 bytes i = bit_or (byte bytes i) (byte bytes (i + 1) * 2 ^ 8 % 2 ^ 32) % 2 ^ 16
