-- ===== src/Wifi.antt =====
-- The station state machine of firmware/components/wifi_manager/wifi_state_machine.c.
pub mod Machine
pub mod Invariant
pub mod Backoff
mod Examples
