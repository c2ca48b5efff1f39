-- ===== src/Eapol.antt =====
-- crates/eapol-io: the raw sockets that carry EAPOL frames.
pub mod Error
pub mod Kernel
pub mod Interface
pub mod Socket
