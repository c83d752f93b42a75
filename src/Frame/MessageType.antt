-- ===== src/Frame/MessageType.antt =====
-- `airdap_frame_message_type_t` of firmware/components/airdap_frame/include/airdap_frame.h, and the
-- tests on it in firmware/components/airdap_frame/airdap_frame.c. A type is a byte of the wire.
use air_dap.Prelude.{ℕ, Bool, ◌&&◌, ◌||◌, leb, ◌==◌, if◌then◌else◌}

abbrev pub hello : ℕ
hello = 1

abbrev pub auth : ℕ
auth = 2

abbrev pub dap_request : ℕ
dap_request = 3

abbrev pub dap_response : ℕ
dap_response = 4

abbrev pub control_request : ℕ
control_request = 5

abbrev pub control_response : ℕ
control_response = 6

abbrev pub keepalive : ℕ
keepalive = 7

abbrev pub error : ℕ
error = 8

unfoldable pub valid_message_type : ℕ → Bool
valid_message_type typ = leb hello typ && leb typ error

unfoldable pub request_message_type : ℕ → Bool
request_message_type typ =
    typ == hello || typ == auth || typ == dap_request || typ == control_request || typ == keepalive

unfoldable pub expected_response_type : ℕ → ℕ
expected_response_type typ =
    if typ == hello || typ == auth || typ == keepalive
    then typ
    else if typ == dap_request
    then dap_response
    else if typ == control_request
    then control_response
    else 0
