-- ===== src/Authd/Worker/Inbound.antt =====
-- crates/authd/src/worker.rs: the EAP packet of a station reaches the state machine as it was sent.
use usg_authenticator.Prelude.{ℕ, ◌≡◌, refl, List, ◌++◌, some, ok}
use usg_authenticator.Pacp.Ethernet.{MacAddr}
use usg_authenticator.Pacp.Eap
use usg_authenticator.Pacp.Pdu.{PacketType, EapolPdu}
use usg_authenticator.Pacp.Pdu
use usg_authenticator.Pacp.Frame.Roundtrip.{decode_frame-encode_frame}
use usg_authenticator.Pae.Event.{eap_from_supplicant}
use usg_authenticator.Authd.Worker.{frame_event}

-- A frame that a station builds around an EAP packet that decodes becomes the event of that
-- station with that packet, octet for octet, whatever padding follows.
frame_event-eap :
    (dst src : MacAddr) (body bytes pad : List ℕ) (q : Eap.EapPacket)
    → Eap.decode body ≡ ok q
    → Pdu.encode_frame (Pdu.new PacketType.eap body) dst src ≡ ok bytes
    → frame_event (bytes ++ pad)
      ≡ some (
        src,
        eap_from_supplicant (record {
          code = q.code;
          identifier = q.identifier;
          eap_type = q.eap_type;
          packet = body;
        }),
      )
unfolding frame_event Pdu.new
frame_event-eap dst src body bytes pad q d e =
    rw (decode_frame-encode_frame (Pdu.new PacketType.eap body) dst src bytes pad tt e, d) refl
