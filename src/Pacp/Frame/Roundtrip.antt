-- ===== src/Pacp/Frame/Roundtrip.antt =====
-- crates/pacp/src/lib.rs: a whole EAPOL frame, written by `encode_frame` and read by `decode_frame`.
use usg_authenticator.Prelude.{ℕ, ◌≡◌, List, ◌++◌, length, ok, inl, inr, arith, ltb, Bool-cases}
use usg_authenticator.Pacp.Ethernet.{MacAddr, ethertype_eapol}
use usg_authenticator.Pacp.Pdu.{EapolPdu, encode_frame}
use usg_authenticator.Pacp.Pdu.Roundtrip.{IsCanonical, decode-wire}
use usg_authenticator.Pacp.Frame.{decode_frame}

-- A frame that is built from a PDU decodes to the PDU and to both addresses, whatever padding
-- follows it, if the packet type is no assigned octet spelled as unknown.
pub decode_frame-encode_frame :
    (p : EapolPdu) (dst src : MacAddr) (bytes pad : List ℕ)
    → IsCanonical p.packet_type
    → encode_frame p dst src ≡ ok bytes
    → decode_frame (bytes ++ pad)
      ≡ ok (record {
        ethernet = record { dst = dst; src = src; ethertype = ethertype_eapol };
        pdu = p;
      })
unfolding decode_frame encode_frame
decode_frame-encode_frame p dst src bytes pad h e = elim (Bool-cases (ltb (length p.body) 65536)) [
  | inl fits ↦ ground (arith, decode-wire p pad h)
  | inr long ↦ ground arith
]
