-- ===== src/Lib.antt =====
-- The AirDAP firmware: a wireless CMSIS-DAP debug probe with USB and network access.
--
-- The firmware (firmware/components) lets USB, network and diagnostic clients drive one SWD debug port.
-- Which client may do so is decided by an arbiter (dap_ownership) on a single atomic word. USB bytes are
-- cut into DAP requests by a stream buffer (usb_device/dap_stream.c), which asks the command protocol
-- (dap_protocol) for the length of each request. Transfers to the target go over the wire as the SWD
-- protocol has it (swd_engine/swd_protocol.c). Above the arbiter stands the mode word (mode_state): USB,
-- Wi-Fi, provisioning, update and shell state with the stored route, from which a policy decides which
-- client may ask the arbiter at all. Network clients speak a framed protocol (airdap_frame)
-- with sessions and sequence numbers. The station state machine (wifi_manager) decides when to connect
-- and how long to wait after a failure, and the debug shell accounts for its output with tickets
-- (usb_device/debug_shell_tx_state.c).
--
-- Files and sources:
--   Prelude, Prelude/Lists, Prelude/Tests, Prelude/Bits, Prelude/Fields: buffers as lists measured by native
--     numbers, C comparisons, and bit operations and bit fields as arithmetic.
--   Frame, Frame/MessageType, Frame/ErrorCode, Frame/Bytes: the constants, `validate_header` and the
--     big-endian accesses of firmware/components/airdap_frame/airdap_frame.c and its header.
--   Frame/Codec: `airdap_frame_decode` and `airdap_frame_encode`; Frame/Codec/Writing and Reading hold
--     what the writes and reads do to a buffer, RoundTrip and Streaming the theorems.
--   Frame/Sequence: the session and sequence counters and the request validator; Numbers is about the
--     counters, Laws about one request, Order about its classification, History about a connection.
--   Frame/Response, Frame/ErrorPayload: `airdap_frame_validate_response`, and the payload of ERROR frames.
--   Ownership/Word: the fields of the control word of firmware/components/dap_ownership/dap_ownership.c.
--   Ownership/Program, Ownership/Calls, Ownership/Revocation: each function of that file as a program of
--     atomic actions.
--   Ownership/Typing: what a program may do to the word while it holds the transition state.
--   Ownership/System: any number of threads that make any calls, interleaved action by action, and the
--     invariant of the states they reach. Ownership/System/Solo: an undisturbed call as such a history.
--   Ownership/Alone: calls that no other thread disturbs, evaluated; a weak exchange may fail all the same.
--   Dap, Dap/Request: the constants and `airdap_dap_request_size` of
--     firmware/components/dap_protocol/dap_protocol.c.
--   Dap/Processor: `airdap_dap_process_packet` of that file over any backend. Transfer, Block and Sequence
--     hold the three long commands, Packet the others and the dispatch; Packet/Safety, Commands, Bounds
--     and Reading are about the response buffer, Ports and Selection about the selected port and the backend.
--   Mode: the mode word of firmware/components/mode_state/mode_state.c and `next_control`. Mode/Word and
--     its children read and write its fields as numbers, and give the state machine on them.
--   Mode/Program, Mode/Calls: the functions of that file and of mode_storage.c as programs of atomic
--     actions, which embed those of the arbiter; Calls/Route has the routes, Calls/Admission the clients.
--   Mode/Monitor: judgements of every path of such a program; Calm, Results, Preemption and Storage are
--     about admission, its results, the count of preemptions and the stored route.
--   Mode/Policy, Mode/Stamp: whom the policy admits, and what its stamp detects.
--   Stream: firmware/components/usb_device/dap_stream.c. Stream/Parses says what a sequence of bytes
--     means, Stream/Loop and Stream/Refinement relate the code to it, Chunks and Expiry use this.
--   Wifi/Machine: firmware/components/wifi_manager/wifi_state_machine.c.
--   Button: firmware/components/ble_provisioning/provisioning_button.c. Button/Invariant ties its times to
--     its states, Button/Presses and Button/Holds are about long holds.
--   Bindings: firmware/components/button_config/button_config.c over any platform. Bindings/Word reads and
--     writes the packed word, Bindings/Updates is about setting a binding.
--   ShellTx: firmware/components/usb_device/debug_shell_tx_state.c.
--   Swd, Swd/Transfer: firmware/components/swd_engine/swd_protocol.c, as programs of the operations of the
--     wire. Drive and Order are about who drives the data line, Request about the bits of a request and
--     of a word, Idle about idle cycles.
--   The modules named Examples hold the concrete runs.
--
-- Conventions: a pointer is an `Option` and `none` is `NULL`; an output pointer is passed with what it
-- points to, and returned. Numbers are natural numbers with the wrap-around of the C types written out;
-- where the ranges of the C types matter, a theorem asks for them (`HeaderFits`, `IsBytes`, `IsWord`).
-- `size_t` has 32 bits. Times are microseconds since boot and not negative. Callbacks of the stream are
-- the list of what they are given.
--
-- Fuel: the loop of `airdap_dap_stream_feed` has the number of buffered bytes as fuel; each round but the
-- last takes a byte or more, so the loop ends by its own condition (`scan-Means` of Stream/Loop).
-- `suspend` and `resume` of the arbiter loop until a weak exchange succeeds, as do a transition and a
-- route selection of the modes, which no bound covers while other threads interfere: they take any fuel,
-- and the theorems on interleavings hold for every fuel. Undisturbed, `suspend` and `resume` need one
-- round more than there are weak exchanges that fail without a reason. The loops over the parts of a DAP request and over the attempts of an
-- SWD transfer count down; those of a DAP command count down from its byte of parts, and a match from
-- its retries; the retries are taken to be fewer than UINT_MAX, with which the source would
-- not leave its loop. Idle cycles have their number as fuel, and 32 rounds exhaust a 32-bit word.
--
-- The backend of the arbiter (line reset and pin release) is the environment: each of its calls may
-- succeed or fail; so is the NVS library. The backend of the DAP processor is any record of functions on a
-- state of its own. Atomic operations are sequentially consistent, the default of the C operations.
--
-- Not modelled: drivers and platform calls (ESP-IDF, TinyUSB, FreeRTOS), the backend of the DAP
-- processor and its vendor commands, the SWD driver swd_engine.c, configuration store, authentication,
-- OTA, provisioning, UART bridging, discovery, the names of button commands, board set-up and the text
-- commands of the shell; and the host programs, which are not C.
pub mod Prelude
pub mod Frame
pub mod Ownership
pub mod Wifi
pub mod Dap
pub mod Stream
pub mod ShellTx
pub mod Swd
pub mod Mode
pub mod Button
pub mod Bindings
