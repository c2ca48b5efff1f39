-- ===== src/Authd.antt =====
-- crates/authd: the daemon that performs the effects of the state machine.
pub mod Error
pub mod Timers
pub mod Config
pub mod Session
pub mod Deps
pub mod Observed
pub mod Dispatch
pub mod Loop
pub mod Worker
pub mod Main
