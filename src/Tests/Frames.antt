-- ===== src/Tests/Frames.antt =====
-- crates/pacp: frames, PDUs and EAP packets.
use usg_authenticator.Prelude.{ℕ, ◌≡◌, refl, List, [], ◌∷◌, ◌++◌, ok}
use usg_authenticator.Pacp.Ethernet.{MacAddr, ethertype_eapol}
use usg_authenticator.Pacp.Pdu.{PacketType, EapolPdu}
use usg_authenticator.Pacp.Pdu
use usg_authenticator.Pacp.Frame.{decode_frame}
use usg_authenticator.Pacp.Frame.Roundtrip.{decode_frame-encode_frame}
use usg_authenticator.Tests.Sessions.{station}

abbrev switch_mac : MacAddr
switch_mac = record { m0 = 2; m1 = 0; m2 = 0; m3 = 0; m4 = 0; m5 = 1 }

abbrev identity_pdu : EapolPdu
identity_pdu = record {
  version = 3;
  packet_type = PacketType.eap;
  body = 2 ∷ 1 ∷ 0 ∷ 6 ∷ 1 ∷ 97 ∷ [];
}

abbrev pdu_bytes : List ℕ
pdu_bytes = 3 ∷ 0 ∷ 0 ∷ 6 ∷ 2 ∷ 1 ∷ 0 ∷ 6 ∷ 1 ∷ 97 ∷ []

abbrev frame_bytes : List ℕ
frame_bytes = 2 ∷ 0 ∷ 0 ∷ 0 ∷ 0 ∷ 1 ∷ 2 ∷ 0 ∷ 0 ∷ 0 ∷ 0 ∷ 7 ∷ 136 ∷ 142 ∷ pdu_bytes

frame_encodes : Pdu.encode_frame identity_pdu switch_mac station ≡ ok frame_bytes
unfolding Pdu.encode_frame Pdu.to_u8
frame_encodes = refl

decode_frame-encode_frame_example :
    decode_frame (frame_bytes ++ (0 ∷ 0 ∷ []))
    ≡ ok (record {
      ethernet = record { dst = switch_mac; src = station; ethertype = ethertype_eapol };
      pdu = identity_pdu;
    })
decode_frame-encode_frame_example =
    decode_frame-encode_frame identity_pdu switch_mac station frame_bytes (0 ∷ 0 ∷ []) tt
      frame_encodes
