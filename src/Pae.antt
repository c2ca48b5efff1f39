-- ===== src/Pae.antt =====
-- crates/pae: the authenticator state machine and the host modes of a port.
pub mod Config
pub mod Effect
pub mod Event
pub mod Session
pub mod Step
pub mod Port
pub mod World
