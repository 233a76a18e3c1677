-- ===== src/Machine.antt =====
-- The package machine: what stands on the buses of the processor.
pub mod Errors
pub mod Memory
pub mod FrontPanel
pub mod Callbacks
pub mod Peripherals
pub mod Terminal
pub mod Observed
pub mod Profiles
pub mod Debugger
