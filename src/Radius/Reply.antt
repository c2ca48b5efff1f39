-- ===== src/Radius/Reply.antt =====
-- crates/radius-client/src/reply.rs: the integrity of a reply, and the event that it stands for.
pub mod Integrity
pub mod Authorized
use usg_authenticator.Prelude.{
  ℕ, ◌+◌, ◌*◌, List, [], ◌∷◌, Bool, true, false, not, ◌&&◌, ltb, leb, ◌==◌, if◌then◌else◌, length,
  Option, none, some, Text, Result, ok, err, ◌>>=◌, text_eq,
}
use usg_authenticator.Std.Utf8.{from_utf8_lossy}
use usg_authenticator.Pae.Effect.{Authorization}
use usg_authenticator.Pae.Event.{Event}
use usg_authenticator.Pae.Session.{is_some}
use usg_authenticator.Radius.Consts.{
  eap_message, max_tag_octet, message_authenticator, state, tunnel_medium_802, tunnel_medium_type,
  tunnel_private_group_id, tunnel_type, tunnel_type_vlan,
}
use usg_authenticator.Radius.Proto.{
  Code, access_accept, access_reject, access_challenge, Attribute, filter_id, session_timeout,
  class, Packet, RadiusProto,
}
use usg_authenticator.Radius.Error.{
  unexpected_reply_code, missing_eap_message, malformed_vlan_assignment,
}
use usg_authenticator.Radius.EapMessage.{R, reassemble}
use usg_authenticator.Radius.Request.{zeros, overwrite}

-- Four octets, or nothing.
abbrev pub read_u32 : List ℕ → Option ℕ
read_u32 (a ∷ b ∷ c ∷ d ∷ []) = some (((a * 256 + b) * 256 + c) * 256 + d)
read_u32 _ = none

-- A tag and three octets, or nothing.
abbrev pub read_tagged_u32 : List ℕ → Option ℕ
read_tagged_u32 (tag ∷ hi ∷ mid ∷ lo ∷ []) = some ((hi * 256 + mid) * 256 + lo)
read_tagged_u32 _ = none

abbrev pub non_empty : List ℕ → Option (List ℕ)
non_empty [] = none
non_empty (x ∷ xs) = some (x ∷ xs)

-- A leading tag octet, 1 to 0x1F, is no part of the group id.
abbrev pub group_body : List ℕ → List ℕ
group_body [] = []
group_body (tag ∷ rest) = if leb 1 tag && leb tag max_tag_octet then rest else tag ∷ rest

abbrev pub value_of : Option Attribute → Option (List ℕ)
value_of none = none
value_of (some a) = some a.value

abbrev pub tagged_is : ℕ → Option Attribute → Bool
tagged_is n none = false
tagged_is n (some a) = elim (read_tagged_u32 a.value) [ none ↦ false | some v ↦ v == n ]

abbrev integer_of : Option Attribute → Option ℕ
integer_of none = none
integer_of (some a) = read_u32 a.value

abbrev text_of : Option Attribute → Option Text
text_of none = none
text_of (some a) = some (from_utf8_lossy a.value)

module _ (P : RadiusProto) where
  -- `Err` of the encoder makes the check fail, as does a value of another length than 16.
  abbrev matches_mac : List ℕ → List ℕ → Result P.PacketError (List ℕ) → Bool
  matches_mac received secret (ok bytes) =
      text_eq (P.calculate_message_authenticator bytes secret) received
  matches_mac received secret (err _) = false

  abbrev check_authenticator : Packet → List ℕ → List ℕ → Option Attribute → Option Attribute → Bool
  check_authenticator reply request_authenticator secret eap none = not (is_some eap)
  check_authenticator reply request_authenticator secret eap (some a) =
      (length a.value == 16)
      && matches_mac a.value secret (
          P.encode (record reply {
            authenticator = request_authenticator;
            attributes = overwrite zeros reply.attributes;
          }))

  unfoldable pub verify_message_authenticator : Packet → List ℕ → List ℕ → Bool
  verify_message_authenticator reply request_authenticator secret =
      check_authenticator reply request_authenticator secret (P.find_attribute reply eap_message)
        (P.find_attribute reply message_authenticator)

  unfoldable pub verify_reply : Packet → List ℕ → List ℕ → Bool
  verify_reply reply request_authenticator secret =
      P.verify_response_authenticator reply request_authenticator secret
      && verify_message_authenticator reply request_authenticator secret

  unfoldable pub extract_state : Packet → Option (List ℕ)
  extract_state reply = value_of (P.find_attribute reply state)

  abbrev decode_group : List ℕ → R P Text
  decode_group [] = err malformed_vlan_assignment
  decode_group (x ∷ xs) = ok (from_utf8_lossy (x ∷ xs))

  unfoldable pub parse_vlan : Packet → List ℕ → R P Text
  parse_vlan reply group_value =
      if tagged_is tunnel_type_vlan (P.find_attribute reply tunnel_type)
        && tagged_is tunnel_medium_802 (P.find_attribute reply tunnel_medium_type)
      then decode_group (group_body group_value)
      else err malformed_vlan_assignment

  abbrev vlan_of : Packet → Option Attribute → R P (Option Text)
  vlan_of reply none = ok none
  vlan_of reply (some a) = parse_vlan reply a.value >>= λ v. ok (some v)

  unfoldable pub parse_authorization : Packet → R P Authorization
  parse_authorization reply = do
    vlan ← vlan_of reply (P.find_attribute reply tunnel_private_group_id)
    ok (record {
      vlan = vlan;
      filter_id = text_of (P.find_attribute reply (P.type_as_u8 filter_id));
      session_timeout = integer_of (P.find_attribute reply (P.type_as_u8 session_timeout));
      class = value_of (P.find_attribute reply (P.type_as_u8 class));
    })

  abbrev challenge_of : List ℕ → R P Event
  challenge_of [] = err missing_eap_message
  challenge_of (x ∷ xs) = ok (Event.access_challenge (x ∷ xs))

  abbrev event_of : Code → Packet → R P Event
  event_of access_challenge reply = challenge_of (reassemble P reply)
  event_of access_accept reply = do
    authorization ← parse_authorization reply
    ok (Event.access_accept authorization (non_empty (reassemble P reply)))
  event_of access_reject reply = ok (Event.access_reject (non_empty (reassemble P reply)))
  event_of c reply = err (unexpected_reply_code (P.code_as_u8 c))

  unfoldable pub parse_reply : Packet → R P Event
  parse_reply reply = event_of reply.code reply
