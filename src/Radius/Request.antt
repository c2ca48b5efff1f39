-- ===== src/Radius/Request.antt =====
-- crates/radius-client/src/request.rs: `Access-Request` for EAP and for MAC Authentication Bypass.
pub mod Echo
use usg_authenticator.Prelude.{
  ℕ, List, [], ◌∷◌, Bool, false, ◌==◌, ◌||◌, if◌then◌else◌, length, Option, none, some, ok, err,
  ◌>>=◌, map_err,
}
use usg_authenticator.Pacp.Ethernet.{format_mac}
use usg_authenticator.Radius.Consts.{
  message_authenticator, state, service_type_framed, service_type_call_check,
}
use usg_authenticator.Radius.Proto.{
  Attribute, user_name, service_type, access_request, Packet, RadiusProto,
}
use usg_authenticator.Radius.Error.{proto, empty_eap_relay}
use usg_authenticator.Radius.Sanitize
use usg_authenticator.Radius.EapMessage.{R, fragment_into}
use usg_authenticator.Radius.Context.{RequestContext, push, append_nas_attributes}

abbrev pub zeros : List ℕ
zeros = 0 ∷ 0 ∷ 0 ∷ 0 ∷ 0 ∷ 0 ∷ 0 ∷ 0 ∷ 0 ∷ 0 ∷ 0 ∷ 0 ∷ 0 ∷ 0 ∷ 0 ∷ 0 ∷ []

-- `for attr in &mut packet.attributes { if … { attr.value = v } }`
abbrev pub overwrite : List ℕ → List Attribute → List Attribute
overwrite v [] = []
overwrite v (a ∷ rest) =
    (if a.attr_type == message_authenticator then record a { value = v } else a) ∷ overwrite v rest

abbrev pub any_authenticator : List Attribute → Bool
any_authenticator [] = false
any_authenticator (a ∷ rest) = a.attr_type == message_authenticator || any_authenticator rest

module _ (P : RadiusProto) where
  abbrev pub placeholder : Packet → R P Packet
  placeholder packet =
      if any_authenticator packet.attributes
      then ok packet
      else push P packet (P.attribute_new message_authenticator zeros)

  -- The packet is encoded with the attribute zeroed, and the HMAC is written over the zeros.
  abbrev pub signed : List ℕ → Packet → R P Packet
  signed secret packet = do
    let blank = record packet { attributes = overwrite zeros packet.attributes }
    encoded ← map_err proto (P.encode blank)
    let mac = P.calculate_message_authenticator encoded secret
    ok (record blank { attributes = overwrite mac blank.attributes })

  unfoldable pub seal_message_authenticator : List ℕ → Packet → R P Packet
  seal_message_authenticator secret packet = placeholder packet >>= signed secret

  abbrev pub push_user_name : Option (List ℕ) → Packet → R P Packet
  push_user_name none packet = ok packet
  push_user_name (some id) packet = do
    name ← Sanitize.user_name id
    push P packet (P.attribute_string (P.type_as_u8 user_name) name)

  abbrev pub push_state : Option (List ℕ) → Packet → R P Packet
  push_state none packet = ok packet
  push_state (some s) packet = push P packet (P.attribute_new state s)

  unfoldable pub access_request_eap :
      RequestContext → ℕ → List ℕ → Option (List ℕ) → Option (List ℕ) → List ℕ → List ℕ → R P Packet
  access_request_eap ctx identifier request_authenticator identity st eap secret =
      if length eap == 0 then err empty_eap_relay else do
        p1 ← push_user_name identity (P.packet_new access_request identifier request_authenticator)
        p2 ← push P p1 (P.attribute_integer (P.type_as_u8 service_type) service_type_framed)
        p3 ← push_state st p2
        p4 ← append_nas_attributes P ctx p3
        p5 ← fragment_into P p4 eap
        seal_message_authenticator secret p5

  unfoldable pub access_request_mab : RequestContext → ℕ → List ℕ → List ℕ → R P Packet
  access_request_mab ctx identifier request_authenticator secret = do
    p1 ←
        push P (P.packet_new access_request identifier request_authenticator)
          (P.attribute_string (P.type_as_u8 user_name) (format_mac ctx.calling_station))
    p2 ← push P p1 (P.attribute_integer (P.type_as_u8 service_type) service_type_call_check)
    p3 ← append_nas_attributes P ctx p2
    seal_message_authenticator secret p3
