-- ===== src/Pacp/Error/Display.antt =====
-- crates/pacp/src/error.rs: the text of an error of the codec.
use usg_authenticator.Prelude.{
  ℕ, ◌+◌, ◌-◌, ◌/◌, ◌%◌, ltb, if◌then◌else◌, [], ◌∷◌, ◌++◌, Text, codes,
}
use usg_authenticator.Std.Decimal.{decimal}
use usg_authenticator.Pacp.Error.{
  PacpError, truncated_ethernet, not_eapol, truncated_eapol_header, truncated_eapol_body,
  truncated_eap_header, eap_length_mismatch, eap_too_short, body_too_long,
}
use usg_authenticator.Pacp.Ethernet
use usg_authenticator.Pacp.Pdu
use usg_authenticator.Pacp.Eap

abbrev lower_hex_digit : ℕ → ℕ
lower_hex_digit d = if ltb d 10 then b'0' + d else b'a' + d - 10

-- `{:#06x}` of a u16: four digits behind `0x`.
abbrev hex_u16 : ℕ → Text
hex_u16 n =
    b'0'
    ∷ b'x'
    ∷ lower_hex_digit (n / 4096)
    ∷ lower_hex_digit (n / 256 % 16)
    ∷ lower_hex_digit (n / 16 % 16)
    ∷ lower_hex_digit (n % 16)
    ∷ []

abbrev pub display : PacpError → Text
display (truncated_ethernet available) =
    codes "truncated Ethernet header: "
    ++ (decimal available ++ (codes " octet(s) available, need " ++ decimal Ethernet.header_len))
display (not_eapol ethertype) = codes "EtherType " ++ (hex_u16 ethertype ++ codes " is not EAPOL")
display (truncated_eapol_header available) =
    codes "truncated EAPOL header: "
    ++ (decimal available ++ (codes " octet(s) available, need " ++ decimal Pdu.header_len))
display (truncated_eapol_body declared available) =
    codes "truncated EAPOL body: declared "
    ++ (decimal declared ++ (codes ", available " ++ decimal available))
display (truncated_eap_header available) =
    codes "truncated EAP header: "
    ++ (decimal available ++ (codes " octet(s) available, need " ++ decimal Eap.header_len))
display (eap_length_mismatch declared available) =
    codes "EAP length field "
    ++ (decimal declared
        ++ (codes " disagrees with " ++ (decimal available ++ codes " available octet(s)")))
display (eap_too_short code declared) =
    codes "EAP packet (code "
    ++ (decimal code ++ (codes ") length " ++ (decimal declared ++ codes " is below minimum")))
display (body_too_long len) =
    codes "body length " ++ (decimal len ++ codes " exceeds the 16-bit length field")
