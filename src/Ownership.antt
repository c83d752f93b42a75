-- ===== src/Ownership.antt =====
-- The arbiter of firmware/components/dap_ownership: who may drive the debug port.
-- One atomic word holds the owner or a state, a bit for a running operation, and a generation.
pub mod Word
pub mod Program
pub mod Calls
pub mod Revocation
pub mod Typing
pub mod System
pub mod Alone
mod Examples
