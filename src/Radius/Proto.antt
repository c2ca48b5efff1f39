-- ===== src/Radius/Proto.antt =====
-- The crate `radius_proto`, which is not part of the repository: its operations are parameters. A
-- packet and an attribute are the public fields that the client reads and writes.
use usg_authenticator.Prelude.{
  ℕ, ◌≤◌, ◌≡◌, List, [], ◌∷◌, ◌++◌, Bool, ◌==◌, if◌then◌else◌, length, Option, none, some, Text,
  Result, ok,
}

-- The packet codes that the client names; `other` stands for all the rest.
pub data Code : Type 0 where
  access_request access_accept access_reject access_challenge accounting_request : Code
  other : ℕ → Code

-- The attribute types that the client takes from the crate.
pub data AttributeType : Type 0 where
  user_name nas_ip_address nas_port service_type filter_id class session_timeout : AttributeType
  called_station_id calling_station_id nas_identifier acct_status_type acct_session_id :
      AttributeType
  acct_terminate_cause nas_port_type : AttributeType

pub data AcctStatusType : Type 0 where
  start stop : AcctStatusType

pub data AcctTerminateCause : Type 0 where
  user_request lost_carrier session_timeout admin_reset nas_request : AcctTerminateCause

pub record Attribute : Type 0 where
  pub attr_type : ℕ
  pub value : List ℕ

pub record Packet : Type 0 where
  pub code : Code
  pub identifier : ℕ
  pub authenticator : List ℕ
  pub attributes : List Attribute

pub record RadiusProto : Type 1 where
  pub PacketError : Type 0
  pub min_packet_size : ℕ
  pub max_packet_size : ℕ
  pub code_as_u8 : Code → ℕ
  pub type_as_u8 : AttributeType → ℕ
  pub status_as_u32 : AcctStatusType → ℕ
  pub cause_as_u32 : AcctTerminateCause → ℕ
  pub packet_new : Code → ℕ → List ℕ → Packet
  pub add_attribute : Packet → Attribute → Packet
  pub find_attribute : Packet → ℕ → Option Attribute
  pub find_all_attributes : Packet → ℕ → List Attribute
  pub attribute_new : ℕ → List ℕ → Result PacketError Attribute
  pub attribute_string : ℕ → Text → Result PacketError Attribute
  pub attribute_integer : ℕ → ℕ → Result PacketError Attribute
  pub attribute_ipv4 : ℕ → List ℕ → Result PacketError Attribute
  pub encode : Packet → Result PacketError (List ℕ)
  pub decode : List ℕ → Result PacketError Packet
  pub calculate_message_authenticator : List ℕ → List ℕ → List ℕ
  pub verify_response_authenticator : Packet → List ℕ → List ℕ → Bool
  pub calculate_accounting_request_authenticator : Packet → List ℕ → List ℕ

abbrev pub first_of : ℕ → List Attribute → Option Attribute
first_of t [] = none
first_of t (a ∷ as') = if a.attr_type == t then some a else first_of t as'

abbrev pub all_of : ℕ → List Attribute → List Attribute
all_of t [] = []
all_of t (a ∷ as') = if a.attr_type == t then a ∷ all_of t as' else all_of t as'

-- What the client relies on: attributes are kept in order, a search finds those of the type, and
-- an attribute of at most 253 octets can be built and holds what it was built from.
pub record IsLawful (P : RadiusProto) : Type 0 where
  pub new-attributes :
      (c : Code) (id : ℕ) (auth : List ℕ)
      → P.packet_new c id auth
        ≡ record { code = c; identifier = id; authenticator = auth; attributes = [] }
  pub add_attribute_lem :
      (p : Packet) (a : Attribute)
      → P.add_attribute p a ≡ record p { attributes = p.attributes ++ (a ∷ []) }
  pub find_attribute_lem : (p : Packet) (t : ℕ) → P.find_attribute p t ≡ first_of t p.attributes
  pub find_all_attributes_lem :
      (p : Packet) (t : ℕ) → P.find_all_attributes p t ≡ all_of t p.attributes
  pub attribute_new_lem :
      (t : ℕ) (v : List ℕ)
      → length v ≤ 253
      → P.attribute_new t v ≡ ok (record { attr_type = t; value = v })
