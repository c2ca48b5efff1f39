-- ===== src/Radius/Error/Display.antt =====
-- crates/radius-client/src/error.rs: the text of an error, with that of the codec's error.
use usg_authenticator.Prelude.{◌++◌, Text, codes}
use usg_authenticator.Std.Decimal.{decimal}
use usg_authenticator.Radius.Error.{
  RadiusClientError, proto, invalid_user_name, unexpected_reply_code, missing_eap_message,
  empty_eap_relay, malformed_vlan_assignment,
}

abbrev pub display {ℓ} : {E : Type ℓ} → (E → Text) → RadiusClientError E → Text
display shown (proto e) = codes "RADIUS codec error: " ++ shown e
display shown invalid_user_name =
    codes "EAP identity is not a valid User-Name (empty/long/control chars)"
display shown (unexpected_reply_code c) = codes "unexpected RADIUS reply code " ++ decimal c
display shown missing_eap_message = codes "Access-Challenge carried no EAP-Message"
display shown empty_eap_relay = codes "asked to relay an empty EAP packet"
display shown malformed_vlan_assignment =
    codes "VLAN assignment lacks Tunnel-Type=13/Tunnel-Medium-Type=6 or is empty"
