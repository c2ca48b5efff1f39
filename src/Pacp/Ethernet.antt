-- ===== src/Pacp/Ethernet.antt =====
-- crates/pacp/src/ethernet.rs: the Ethernet II header around an EAPOL PDU.
pub mod StationId
use usg_authenticator.Prelude.{
  ℕ, ◌+◌, ◌-◌, ◌/◌, ◌%◌, List, [], ◌∷◌, ◌++◌, Bool, Text, ltb, ◌==◌, if◌then◌else◌, length, Result,
  ok, err, ◌>>=◌, true, ◌&&◌, ◌≡◌, ◌↔◌, arith,
}
use usg_authenticator.Pacp.Error.{PacpError, truncated_ethernet, not_eapol}
use usg_authenticator.Pacp.Octets.{from_be_bytes, to_be_bytes}

abbrev pub header_len : ℕ
header_len = 14

-- `[u8; 6]`
pub record MacAddr : Type 0 where
  pub m0 : ℕ
  pub m1 : ℕ
  pub m2 : ℕ
  pub m3 : ℕ
  pub m4 : ℕ
  pub m5 : ℕ

-- `==` on the arrays.
unfoldable pub mac_eq : MacAddr → MacAddr → Bool
mac_eq a b =
    a.m0 == b.m0 && a.m1 == b.m1 && a.m2 == b.m2 && a.m3 == b.m3 && a.m4 == b.m4 && a.m5 == b.m5

pub mac_eq_iff : (a b : MacAddr) → (mac_eq a b ≡ true) ↔ (a ≡ b)
unfolding mac_eq
mac_eq_iff a b = ground arith

abbrev pub octets : MacAddr → List ℕ
octets m = m.m0 ∷ m.m1 ∷ m.m2 ∷ m.m3 ∷ m.m4 ∷ m.m5 ∷ []

abbrev pub ethertype_eapol : ℕ
ethertype_eapol = 0x888E

abbrev pub pae_group_addr : MacAddr
pae_group_addr = record { m0 = 0x01; m1 = 0x80; m2 = 0xC2; m3 = 0x00; m4 = 0x00; m5 = 0x03 }

pub record EthernetHeader : Type 0 where
  pub dst : MacAddr
  pub src : MacAddr
  pub ethertype : ℕ

pub record EthernetFrame : Type 0 where
  pub header : EthernetHeader
  pub payload : List ℕ

-- The header's octets, as they are appended to `out`.
unfoldable pub encode_into : EthernetHeader → List ℕ → List ℕ
encode_into h out = out ++ (octets h.dst ++ (octets h.src ++ to_be_bytes h.ethertype))

-- One upper-case hexadecimal digit of `{:02X}`.
unfoldable pub hex_digit : ℕ → ℕ
hex_digit d = if ltb d 10 then b'0' + d else b'A' + d - 10

abbrev pub hex2 : ℕ → Text
hex2 b = hex_digit (b / 16) ∷ hex_digit (b % 16) ∷ []

-- The loop over the octets: a hyphen before each but the first.
abbrev format_rest : List ℕ → Text
format_rest [] = []
format_rest (b ∷ bs) = b'-' ∷ (hex2 b ++ format_rest bs)

abbrev format_octets : List ℕ → Text
format_octets [] = []
format_octets (b ∷ bs) = hex2 b ++ format_rest bs

unfoldable pub format_mac : MacAddr → Text
format_mac mac = format_octets (octets mac)

unfoldable pub src_station_id : EthernetHeader → Text
src_station_id h = format_mac h.src

-- The fourteen octets are taken apart in one step, and a shorter buffer is an error.
unfoldable pub decode_frame : List ℕ → Result PacpError EthernetFrame
decode_frame (d0 ∷ d1 ∷ d2 ∷ d3 ∷ d4 ∷ d5 ∷ s0 ∷ s1 ∷ s2 ∷ s3 ∷ s4 ∷ s5 ∷ e0 ∷ e1 ∷ payload) =
    ok (record {
      header = record {
        dst = record { m0 = d0; m1 = d1; m2 = d2; m3 = d3; m4 = d4; m5 = d5 };
        src = record { m0 = s0; m1 = s1; m2 = s2; m3 = s3; m4 = s4; m5 = s5 };
        ethertype = from_be_bytes e0 e1;
      };
      payload = payload;
    })
decode_frame buf = err (truncated_ethernet (length buf))

unfoldable pub decode_eapol_frame : List ℕ → Result PacpError EthernetFrame
unfolding decode_frame
decode_eapol_frame buf = do
  frame ← decode_frame buf
  if frame.header.ethertype == ethertype_eapol
      then ok frame
      else err (not_eapol frame.header.ethertype)
