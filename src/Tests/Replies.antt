-- ===== src/Tests/Replies.antt =====
-- crates/radius-client and crates/authd/src/session.rs: a codec that keeps attributes as they are,
-- and replies that grant and that challenge.
use usg_authenticator.Prelude.{
  ℕ, ◌≡◌, ◌≤◌, refl, List, [], ◌∷◌, ◌++◌, true, ltb, if◌then◌else◌, none, some, codes, Result, ok,
  err, text_eq, arith, length, All,
}
use usg_authenticator.Pae.Effect.{Authorization}
use usg_authenticator.Pae.Event.{Event}
use usg_authenticator.Radius.Consts.{eap_message, message_authenticator}
use usg_authenticator.Radius.Proto.{
  Code, Attribute, AttributeType, Packet, RadiusProto, IsLawful, first_of, all_of,
}
use usg_authenticator.Radius.Context.{RequestContext}
use usg_authenticator.Radius.Sanitize.{user_name, user_name-printable}
use usg_authenticator.Radius.EapMessage.{
  values, fragment_into, reassemble, reassemble-fragment_into,
}
use usg_authenticator.Radius.Request.{zeros, seal_message_authenticator}
use usg_authenticator.Radius.Reply.{
  verify_reply, verify_message_authenticator, extract_state, parse_reply,
}
use usg_authenticator.Radius.Reply.Integrity.{Protected, verify_reply-true, seal-verifies}
use usg_authenticator.Authd.Session.{RadiusSession, fresh, build_eap_request, handle_reply}
use usg_authenticator.Authd.Session.Replies.{handle_reply-ok}
use usg_authenticator.Tests.Sessions.{station}

abbrev built : ℕ → List ℕ → Result (Unit {0}) Attribute
built t v = if ltb 253 (length v) then err tt else ok (record { attr_type = t; value = v })

abbrev code_number : Code → ℕ
code_number Code.access_request = 1
code_number Code.access_accept = 2
code_number Code.access_reject = 3
code_number Code.accounting_request = 4
code_number Code.access_challenge = 11
code_number (Code.other n) = n

abbrev type_number : AttributeType → ℕ
type_number AttributeType.user_name = 1
type_number AttributeType.filter_id = 11
type_number AttributeType.class = 25
type_number AttributeType.session_timeout = 27
type_number _ = 6

abbrev padded : ℕ → List ℕ
padded n = n ∷ 0 ∷ 0 ∷ 0 ∷ 0 ∷ 0 ∷ 0 ∷ 0 ∷ 0 ∷ 0 ∷ 0 ∷ 0 ∷ 0 ∷ 0 ∷ 0 ∷ 0 ∷ []

-- The length of what is authenticated, in 16 octets.
abbrev digest : List ℕ → List ℕ → List ℕ
digest bytes secret = padded (length bytes)

abbrev octets : List Attribute → List ℕ
octets [] = []
octets (a ∷ rest) = a.attr_type ∷ (a.value ++ octets rest)

abbrev decoded : List ℕ → Result (Unit {0}) Packet
decoded (c ∷ i ∷ rest) =
    ok (record { code = Code.other c; identifier = i; authenticator = []; attributes = [] })
decoded _ = err tt

abbrev pub codec : RadiusProto
codec = record {
  PacketError = Unit;
  min_packet_size = 20;
  max_packet_size = 4096;
  code_as_u8 = code_number;
  type_as_u8 = type_number;
  status_as_u32 = λ _. 1;
  cause_as_u32 = λ _. 1;
  packet_new =
      λ c id auth. record { code = c; identifier = id; authenticator = auth; attributes = [] };
  add_attribute = λ p a. record p { attributes = p.attributes ++ (a ∷ []) };
  find_attribute = λ p t. first_of t p.attributes;
  find_all_attributes = λ p t. all_of t p.attributes;
  attribute_new = built;
  attribute_string = built;
  attribute_integer = λ t n. ok (record { attr_type = t; value = 0 ∷ 0 ∷ 0 ∷ n ∷ [] });
  attribute_ipv4 = built;
  encode = λ p. ok (octets p.attributes);
  decode = decoded;
  calculate_message_authenticator = digest;
  verify_response_authenticator = λ p auth secret. true;
  calculate_accounting_request_authenticator = λ p secret. digest [] secret;
}

pub codec-IsLawful : IsLawful codec
codec-IsLawful = record {
  new-attributes = λ c id auth. refl;
  add_attribute_lem = λ p a. refl;
  find_attribute_lem = λ p t. refl;
  find_all_attributes_lem = λ p t. refl;
  attribute_new_lem = λ t v h. ground arith;
}

abbrev attribute : ℕ → List ℕ → Attribute
attribute t v = record { attr_type = t; value = v }

abbrev reply_with : Code → List Attribute → Packet
reply_with c attributes = record {
  code = c;
  identifier = 0;
  authenticator = zeros;
  attributes = attributes;
}

-- VLAN 20, by its tunnel attributes.
abbrev vlan_reply : Packet
vlan_reply = reply_with Code.access_accept (
    attribute 64 (0 ∷ 0 ∷ 0 ∷ 13 ∷ [])
    ∷ attribute 65 (0 ∷ 0 ∷ 0 ∷ 6 ∷ [])
    ∷ attribute 81 (50 ∷ 48 ∷ [])
    ∷ [])

-- An EAP challenge with its State and a Message-Authenticator over 26 octets.
abbrev challenge_reply : Packet
challenge_reply = reply_with Code.access_challenge (
    attribute 79 (1 ∷ 2 ∷ 0 ∷ 5 ∷ 4 ∷ [])
    ∷ attribute 24 (7 ∷ 7 ∷ [])
    ∷ attribute 80 (padded 26)
    ∷ [])

abbrev asked : RadiusSession
asked = record fresh { pending = some (record { identifier = 0; request_authenticator = zeros }) }

reassemble-fragment_into_example :
    (q : Packet) × (fragment_into codec (reply_with Code.access_request []) (1 ∷ 2 ∷ 0 ∷ 5 ∷ 4 ∷ [])
      ≡ ok q)
    × (reassemble codec q ≡ 1 ∷ 2 ∷ 0 ∷ 5 ∷ 4 ∷ [])
    × All (λ a. length a.value ≤ 253) (all_of eap_message q.attributes)
reassemble-fragment_into_example =
    reassemble-fragment_into codec codec-IsLawful (reply_with Code.access_request [])
      (1 ∷ 2 ∷ 0 ∷ 5 ∷ 4 ∷ []) refl

passes : verify_reply codec challenge_reply zeros [] ≡ true
unfolding verify_reply verify_message_authenticator text_eq
passes = refl

verify_reply-true_example :
    (codec.verify_response_authenticator challenge_reply zeros [] ≡ true)
    × Protected codec challenge_reply zeros []
        (codec.find_attribute challenge_reply message_authenticator)
verify_reply-true_example = verify_reply-true codec challenge_reply zeros [] passes

abbrev sealed : Packet
sealed = reply_with Code.access_request (attribute 1 (97 ∷ []) ∷ attribute 80 (padded 19) ∷ [])

seals :
    seal_message_authenticator codec []
      (reply_with Code.access_request (attribute 1 (97 ∷ []) ∷ []))
    ≡ ok sealed
unfolding seal_message_authenticator
seals = refl

seal-verifies_example : verify_message_authenticator codec sealed zeros [] ≡ true
seal-verifies_example =
    seal-verifies codec codec-IsLawful (λ bytes secret. refl) []
      (reply_with Code.access_request (attribute 1 (97 ∷ []) ∷ [])) sealed seals

abbrev vlan_20 : Authorization
vlan_20 = record {
  vlan = some (50 ∷ 48 ∷ []);
  filter_id = none;
  session_timeout = none;
  class = none;
}

abbrev challenge : Event
challenge = Event.access_challenge (1 ∷ 2 ∷ 0 ∷ 5 ∷ 4 ∷ [])

handles : (handle_reply codec Unit challenge_reply [] asked).1 ≡ ok challenge
unfolding handle_reply verify_reply verify_message_authenticator text_eq parse_reply reassemble
    values
handles = refl

handle_reply-ok_example :
    (handle_reply codec Unit challenge_reply [] asked).0.last_state
    ≡ extract_state codec challenge_reply
handle_reply-ok_example = (handle_reply-ok codec Unit challenge_reply [] asked challenge handles).2

abbrev pub context : RequestContext
context = record {
  nas_ip = none;
  nas_identifier = codes "sw";
  nas_port_id = codes "e1";
  nas_port = none;
  calling_station = station;
  called_station = station;
}

abbrev asking : RadiusSession
asking =
    (build_eap_request codec Unit context (some (97 ∷ [])) (2 ∷ 1 ∷ 0 ∷ 6 ∷ 1 ∷ 97 ∷ []) zeros []
      fresh).0

answered : (handle_reply codec Unit challenge_reply [] asking).1 ≡ ok challenge
unfolding handle_reply build_eap_request verify_reply verify_message_authenticator text_eq
    parse_reply reassemble values
answered = refl

named : user_name {E = Unit {0}} (codes "bob") ≡ ok (codes "bob")
named = user_name-printable Unit (codes "bob") (ground arith) (omega arith) (omega arith)
