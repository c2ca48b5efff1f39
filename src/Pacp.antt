-- ===== src/Pacp.antt =====
-- crates/pacp: the EAPOL/PACP frame codec.
pub mod Error
pub mod Octets
pub mod Ethernet
pub mod Pdu
pub mod Eap
pub mod Frame
