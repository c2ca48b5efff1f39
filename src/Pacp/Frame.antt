-- ===== src/Pacp/Frame.antt =====
-- crates/pacp/src/lib.rs: the one-shot decoder of a captured frame.
pub mod Roundtrip
use usg_authenticator.Prelude.{ℕ, List, Result, ok, ◌>>=◌}
use usg_authenticator.Pacp.Error.{PacpError}
use usg_authenticator.Pacp.Ethernet.{EthernetHeader, decode_eapol_frame}
use usg_authenticator.Pacp.Pdu.{EapolPdu}
use usg_authenticator.Pacp.Pdu

pub record EapolFrame : Type 0 where
  pub ethernet : EthernetHeader
  pub pdu : EapolPdu

unfoldable pub decode_frame : List ℕ → Result PacpError EapolFrame
unfolding decode_eapol_frame
decode_frame buf = do
  frame ← decode_eapol_frame buf
  pdu ← Pdu.decode frame.payload
  ok (record { ethernet = frame.header; pdu = pdu })
