-- ===== src/Pacp/Eap.antt =====
-- crates/pacp/src/eap.rs: the read-only view of an EAP packet's header.
pub mod Identity
use usg_authenticator.Prelude.{
  ℕ, List, [], ◌∷◌, Bool, true, false, ltb, ◌==◌, if◌then◌else◌, length, Option, none, some, Result,
  ok, err,
}
use usg_authenticator.Pacp.Error.{
  PacpError, truncated_eap_header, eap_length_mismatch, eap_too_short,
}
use usg_authenticator.Pacp.Octets.{from_be_bytes}

abbrev pub header_len : ℕ
header_len = 4

abbrev pub min_request_response_len : ℕ
min_request_response_len = 5

pub data EapCode : Type 0 where
  request response success failure : EapCode
  unknown : ℕ → EapCode

pub data EapType : Type 0 where
  identity_type notification nak tls teap : EapType
  other : ℕ → EapType

unfoldable pub code_from_u8 : ℕ → EapCode
code_from_u8 v =
    if v == 1
    then request
    else if v == 2
    then response
    else if v == 3
    then success
    else if v == 4
    then failure
    else unknown v

abbrev pub has_type : EapCode → Bool
has_type request = true
has_type response = true
has_type _ = false

unfoldable pub type_from_u8 : ℕ → EapType
type_from_u8 v =
    if v == 1
    then identity_type
    else if v == 2
    then notification
    else if v == 3
    then nak
    else if v == 13
    then tls
    else if v == 55
    then teap
    else other v

unfoldable pub request_identity : ℕ → List ℕ
request_identity identifier = 1 ∷ identifier ∷ 0 ∷ 5 ∷ 1 ∷ []

pub record EapPacket : Type 0 where
  pub code : EapCode
  pub identifier : ℕ
  pub eap_type : Option EapType
  pub type_data : List ℕ

abbrev header_only : EapCode → ℕ → EapPacket
header_only code identifier = record {
  code = code;
  identifier = identifier;
  eap_type = none;
  type_data = [];
}

-- `buf.get(HEADER_LEN)` and `buf.get(HEADER_LEN + 1..)`, from what follows the header.
abbrev type_at : List ℕ → Option EapType
type_at [] = none
type_at (t ∷ _) = some (type_from_u8 t)

abbrev data_at : List ℕ → List ℕ
data_at [] = []
data_at (_ ∷ d) = d

-- The `match code` of `decode`, once the length field is known to be the buffer's length.
decode_body : EapCode → ℕ → ℕ → ℕ → List ℕ → Result PacpError EapPacket
decode_body request octet identifier declared rest =
    if ltb declared min_request_response_len
    then err (eap_too_short octet declared)
    else ok (record {
      code = request;
      identifier = identifier;
      eap_type = type_at rest;
      type_data = data_at rest;
    })
decode_body response octet identifier declared rest =
    if ltb declared min_request_response_len
    then err (eap_too_short octet declared)
    else ok (record {
      code = response;
      identifier = identifier;
      eap_type = type_at rest;
      type_data = data_at rest;
    })
decode_body success octet identifier declared rest =
    if declared == header_len
    then ok (header_only success identifier)
    else err (eap_too_short octet declared)
decode_body failure octet identifier declared rest =
    if declared == header_len
    then ok (header_only failure identifier)
    else err (eap_too_short octet declared)
decode_body (unknown v) octet identifier declared rest =
    if ltb declared header_len
    then err (eap_too_short octet declared)
    else ok (header_only (unknown v) identifier)

-- The length field must be the buffer's length exactly.
unfoldable pub decode : List ℕ → Result PacpError EapPacket
unfolding decode_body
decode (code_octet ∷ identifier ∷ len_hi ∷ len_lo ∷ rest) =
    let declared = from_be_bytes len_hi len_lo in
    let available = length (code_octet ∷ identifier ∷ len_hi ∷ len_lo ∷ rest) in
    if declared == available
    then decode_body (code_from_u8 code_octet) code_octet identifier declared rest
    else err (eap_length_mismatch declared available)
decode buf = err (truncated_eap_header (length buf))

abbrev is_response_identity : EapCode → Option EapType → Bool
is_response_identity response (some identity_type) = true
is_response_identity _ _ = false

-- The octets that become `User-Name`, for an EAP-Response/Identity alone.
unfoldable pub identity : EapPacket → Option (List ℕ)
identity p = if is_response_identity p.code p.eap_type then some p.type_data else none
