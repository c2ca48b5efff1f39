-- ===== src/Authd/Worker.antt =====
-- crates/authd/src/worker.rs: what a received frame becomes, and what is sent for an EAP packet.
pub mod Inbound
pub mod Scheduler
pub mod Run
pub mod Outbound
use usg_authenticator.Prelude.{ℕ, List, Option, none, some, Result, ok, err}
use usg_authenticator.Pacp.Ethernet.{MacAddr}
use usg_authenticator.Pacp.Eap
use usg_authenticator.Pacp.Pdu.{PacketType, EapolPdu}
use usg_authenticator.Pacp.Pdu
use usg_authenticator.Pacp.Error.{PacpError}
use usg_authenticator.Pacp.Frame.{EapolFrame, decode_frame}
use usg_authenticator.Pae.Event.{Event, eap_from_supplicant, eapol_start, eapol_logoff}

-- The frame of `EapolSupplicant::send_eap`.
unfoldable pub supplicant_frame : MacAddr → MacAddr → List ℕ → Result PacpError (List ℕ)
supplicant_frame src mac eap = Pdu.encode_frame (Pdu.new PacketType.eap eap) mac src

abbrev inbound : List ℕ → Result PacpError Eap.EapPacket → Option Event
inbound body (err _) = none
inbound body (ok p) = some (
    eap_from_supplicant
      (record { code = p.code; identifier = p.identifier; eap_type = p.eap_type; packet = body }))

abbrev event_of : PacketType → List ℕ → Option Event
event_of PacketType.start body = some eapol_start
event_of PacketType.logoff body = some eapol_logoff
event_of PacketType.eap body = inbound body (Eap.decode body)
event_of _ body = none

abbrev addressed : MacAddr → Option Event → Option (MacAddr × Event)
addressed mac none = none
addressed mac (some e) = some (mac, e)

abbrev of_frame : Result PacpError EapolFrame → Option (MacAddr × Event)
of_frame (err _) = none
of_frame (ok f) = addressed f.ethernet.src (event_of f.pdu.packet_type f.pdu.body)

-- The station and the event that `dispatch_frame` hands to the orchestrator; other frames are ignored.
unfoldable pub frame_event : List ℕ → Option (MacAddr × Event)
frame_event bytes = of_frame (decode_frame bytes)
