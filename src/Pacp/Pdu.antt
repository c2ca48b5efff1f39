-- ===== src/Pacp/Pdu.antt =====
-- crates/pacp/src/pdu.rs: the EAPOL PDU, version, packet type, body length and body.
pub mod Roundtrip
use usg_authenticator.Prelude.{
  ℕ, List, [], ◌∷◌, ◌++◌, ltb, ◌==◌, if◌then◌else◌, length, take, Option, none, some, Result, ok,
  err, ◌>>=◌, ok_or,
}
use usg_authenticator.Pacp.Error.{
  PacpError, truncated_eapol_header, truncated_eapol_body, body_too_long,
}
use usg_authenticator.Pacp.Octets.{from_be_bytes, to_be_bytes}
use usg_authenticator.Pacp.Ethernet.{MacAddr, EthernetHeader, ethertype_eapol}
use usg_authenticator.Pacp.Ethernet

abbrev pub header_len : ℕ
header_len = 4

abbrev pub protocol_version_2010 : ℕ
protocol_version_2010 = 3

pub data PacketType : Type 0 where
  eap start logoff key encapsulated_asf_alert mka : PacketType
  announcement_generic announcement_specific announcement_req : PacketType
  unknown : ℕ → PacketType

unfoldable pub to_u8 : PacketType → ℕ
to_u8 eap = 0
to_u8 start = 1
to_u8 logoff = 2
to_u8 key = 3
to_u8 encapsulated_asf_alert = 4
to_u8 mka = 5
to_u8 announcement_generic = 6
to_u8 announcement_specific = 7
to_u8 announcement_req = 8
to_u8 (unknown v) = v

unfoldable pub from_u8 : ℕ → PacketType
from_u8 v =
    if v == 0
    then eap
    else if v == 1
    then start
    else if v == 2
    then logoff
    else if v == 3
    then key
    else if v == 4
    then encapsulated_asf_alert
    else if v == 5
    then mka
    else if v == 6
    then announcement_generic
    else if v == 7
    then announcement_specific
    else if v == 8
    then announcement_req
    else unknown v

pub record EapolPdu : Type 0 where
  pub version : ℕ
  pub packet_type : PacketType
  pub body : List ℕ

unfoldable pub new : PacketType → List ℕ → EapolPdu
new t body = record { version = protocol_version_2010; packet_type = t; body = body }

-- `buf.get(..n)` of what follows the header: nothing if the buffer ends before.
unfoldable pub get_to : List ℕ → ℕ → Option (List ℕ)
get_to buf n = if ltb (length buf) n then none else some (take n buf)

-- The declared length is authoritative: octets past it are ignored, a longer one is an error.
unfoldable pub decode : List ℕ → Result PacpError EapolPdu
decode (version ∷ type_octet ∷ len_hi ∷ len_lo ∷ rest) = do
  let declared = from_be_bytes len_hi len_lo
  body ← ok_or (get_to rest declared) (truncated_eapol_body declared (length rest))
  ok (record { version = version; packet_type = from_u8 type_octet; body = body })
decode buf = err (truncated_eapol_header (length buf))

-- What `encode_into` leaves in `out`; on an error it has appended nothing.
unfoldable pub encode_into : EapolPdu → List ℕ → Result PacpError (List ℕ)
encode_into p out =
    if ltb (length p.body) 65536
    then ok (out ++ (p.version ∷ to_u8 p.packet_type ∷ (to_be_bytes (length p.body) ++ p.body)))
    else err (body_too_long (length p.body))

unfoldable pub encode : EapolPdu → Result PacpError (List ℕ)
unfolding encode_into
encode p = encode_into p []

unfoldable pub encode_frame : EapolPdu → MacAddr → MacAddr → Result PacpError (List ℕ)
unfolding encode_into Ethernet.encode_into
encode_frame p dst src =
    let header : EthernetHeader = record { dst = dst; src = src; ethertype = ethertype_eapol } in
    encode_into p (Ethernet.encode_into header [])
