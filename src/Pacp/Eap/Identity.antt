-- ===== src/Pacp/Eap/Identity.antt =====
-- crates/pacp/src/eap.rs: the identity that the decoder hands on as `User-Name`.
use usg_authenticator.Prelude.{
  ℕ, Bool, ◌+◌, ◌≤◌, ◌<◌, ◌≡◌, ◌≢◌, refl, List, [], ◌∷◌, ◌++◌, true, false, length, All, none, some,
  ok, arith,
}
use usg_authenticator.Pacp.Octets.{IsOctet, to_be_bytes}
use usg_authenticator.Pacp.Eap.{
  response, EapPacket, identity_type, has_type, decode, code_from_u8, type_from_u8, identity,
}

-- The octets of an EAP-Response/Identity.
abbrev pub identity_wire : ℕ → List ℕ → List ℕ
identity_wire identifier name = 2 ∷ identifier ∷ (to_be_bytes (5 + length name) ++ (1 ∷ name))

-- An EAP-Response/Identity whose name fits the length field decodes, and the name and the
-- identifier are read back whole.
pub identity-identity_wire :
    (identifier : ℕ) (name : List ℕ)
    → length name < 65531
    → (p : EapPacket) × (decode (identity_wire identifier name) ≡ ok p)
      × (identity p ≡ some name)
      × (p.identifier ≡ identifier)
unfolding decode identity code_from_u8 type_from_u8
identity-identity_wire identifier name h = (
  record {
    code = response;
    identifier = identifier;
    eap_type = some identity_type;
    type_data = name;
  },
  ground arith,
  refl,
  refl,
)

code_from_u8-response : (c : ℕ) → code_from_u8 c ≡ response → c ≡ 2
unfolding code_from_u8
code_from_u8-response c h = ground arith

type_from_u8-identity_type : (t : ℕ) → type_from_u8 t ≡ identity_type → t ≡ 1
unfolding type_from_u8
type_from_u8-identity_type t h = ground arith

-- An octet buffer from which an identity is read is the EAP-Response/Identity with that name, to
-- the last octet.
pub decode-identity :
    (buf name : List ℕ) (p : EapPacket)
    → All IsOctet buf
    → decode buf ≡ ok p
    → identity p ≡ some name
    → buf ≡ identity_wire p.identifier name
unfolding decode identity
decode-identity (c ∷ i ∷ hi ∷ lo ∷ t ∷ d) name p o e n =
    ground (arith, code_from_u8-response c, type_from_u8-identity_type t)
decode-identity (c ∷ i ∷ hi ∷ lo ∷ []) name p o e n = ground arith
decode-identity _ name p o e n = ground arith

-- What a code that carries a type, or one that does not, makes of a packet of the given length.
abbrev pub HasShape : Bool → ℕ → EapPacket → Type 0
HasShape true n p = (p.eap_type ≢ none) × (length p.type_data + 5 ≡ n)
HasShape false n p = (4 ≤ n) × (p.eap_type ≡ none) × (p.type_data ≡ [])

-- A packet that decodes has a type exactly if its code carries one, and its type data are then all
-- the octets after the type.
pub decode-shape :
    (buf : List ℕ) (p : EapPacket) → decode buf ≡ ok p → HasShape (has_type p.code) (length buf) p
unfolding decode
decode-shape (c ∷ i ∷ hi ∷ lo ∷ t ∷ d) p e = ground arith
decode-shape (c ∷ i ∷ hi ∷ lo ∷ []) p e = ground arith
decode-shape _ p e = ground arith
