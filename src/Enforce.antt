-- ===== src/Enforce.antt =====
-- crates/enforce/src/lib.rs: what an authorization applies to on a port.
pub mod Recording
use usg_authenticator.Pacp.Ethernet.{MacAddr}

pub data Target : Type 0 where
  port : Target
  mac : MacAddr → Target
