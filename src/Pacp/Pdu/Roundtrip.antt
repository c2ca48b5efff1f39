-- ===== src/Pacp/Pdu/Roundtrip.antt =====
-- crates/pacp/src/pdu.rs: what `encode` writes, `decode` reads, and the other way round.
use usg_authenticator.Prelude.{
  ℕ, ◌+◌, ◌≤◌, ◌<◌, ◌≡◌, ◌↔◌, refl, List, [], ◌∷◌, ◌++◌, ltb, length, take, drop, length-append,
  take-append_length, take-append-drop, length-take-le, All, some, ok, Bool-cases, Option-cases,
  inl, inr, arith,
}
use usg_authenticator.Pacp.Octets.{IsOctet, from_be_bytes, to_be_bytes, from_be_bytes-to_be_bytes}
use usg_authenticator.Pacp.Pdu.{
  PacketType, eap, unknown, EapolPdu, to_u8, from_u8, get_to, decode, encode,
}

-- `Unknown` stands for an unassigned octet only.
abbrev pub IsCanonical : PacketType → Type 0
IsCanonical (unknown v) = 8 < v
IsCanonical _ = Unit

pub from_u8-to_u8 : (t : PacketType) → IsCanonical t → from_u8 (to_u8 t) ≡ t
unfolding from_u8 to_u8
from_u8-to_u8 (unknown v) h = ground arith
from_u8-to_u8 eap h = refl
from_u8-to_u8 _ h = refl

pub to_u8-from_u8 : (v : ℕ) → to_u8 (from_u8 v) ≡ v
unfolding from_u8 to_u8
to_u8-from_u8 v = ground arith

pub from_u8-IsCanonical : (v : ℕ) → IsCanonical (from_u8 v)
unfolding from_u8
from_u8-IsCanonical v = ground arith

pub get_to-append : (body pad : List ℕ) → get_to (body ++ pad) (length body) ≡ some body
unfolding get_to
get_to-append body pad = ground (arith, length-append body pad, take-append_length body pad)

-- The octets of a PDU, as the standard lays them out.
abbrev pub wire : EapolPdu → List ℕ
wire p = p.version ∷ to_u8 p.packet_type ∷ (to_be_bytes (length p.body) ++ p.body)

pub decode-wire :
    (p : EapolPdu) (pad : List ℕ) → IsCanonical p.packet_type → decode (wire p ++ pad) ≡ ok p
unfolding decode
decode-wire p pad h = rw (from_be_bytes-to_be_bytes, get_to-append, from_u8-to_u8 p.packet_type h)

-- A PDU that encodes is what the decoder finds in its octets, whatever padding follows them.
pub decode-encode :
    (p : EapolPdu) (bytes pad : List ℕ)
    → IsCanonical p.packet_type
    → encode p ≡ ok bytes
    → decode (bytes ++ pad) ≡ ok p
unfolding encode
decode-encode p bytes pad h e = elim (Bool-cases (ltb (length p.body) 65536)) [
  | inl fits ↦ ground (arith, decode-wire p pad h)
  | inr long ↦ ground arith
]

-- The octets that `take` cuts off are the body, and the buffer goes on with the rest.
get_to-some :
    (rest body : List ℕ) (n : ℕ)
    → get_to rest n ≡ some body
    → (body ≡ take n rest) × (length body ≡ n) × (n ≤ length rest)
unfolding get_to
get_to-some rest body n h = ground (arith, length-take-le n rest)

-- What the decoder has read, and what it left.
decode-ok :
    (buf : List ℕ) (p : EapolPdu)
    → All IsOctet buf
    → decode buf ≡ ok p
    → (pad : List ℕ) × (buf ≡ wire p ++ pad) × (length p.body < 65536)
unfolding decode
decode-ok (v ∷ t ∷ hi ∷ lo ∷ rest) p o e = elim (Option-cases (get_to rest (from_be_bytes hi lo))) [
  | inl short ↦ ground arith
  | inr (body, found) ↦
      let cut = get_to-some rest body (from_be_bytes hi lo) found in
      (
        drop (from_be_bytes hi lo) rest,
        ground (arith, take-append-drop (from_be_bytes hi lo) rest, to_u8-from_u8 t),
        ground arith,
      )
]
decode-ok _ p o e = ground arith

-- An octet buffer that decodes to a PDU is the encoding of the PDU and padding behind it.
pub encode-decode :
    (buf : List ℕ) (p : EapolPdu)
    → All IsOctet buf
    → decode buf ≡ ok p
    → (bytes : List ℕ) × (pad : List ℕ) × (encode p ≡ ok bytes) × (buf ≡ bytes ++ pad)
unfolding encode
encode-decode buf p o e =
    let (pad, split, small) = decode-ok buf p o e in (wire p, pad, ground arith, split)

-- The length that the header declares.
abbrev pub declared : List ℕ → ℕ
declared (_ ∷ _ ∷ hi ∷ lo ∷ _) = from_be_bytes hi lo
declared _ = 0

-- The PDU decoder succeeds exactly on the buffers that hold a header and the declared body.
pub decode-IsOk :
    (buf : List ℕ) → ((p : EapolPdu) × (decode buf ≡ ok p)) ↔ (4 + declared buf ≤ length buf)
unfolding decode get_to
decode-IsOk (v ∷ t ∷ hi ∷ lo ∷ rest) = (
  λ (p, e). ground arith,
  λ fits. (
    record { version = v; packet_type = from_u8 t; body = take (from_be_bytes hi lo) rest },
    ground arith,
  ),
)
decode-IsOk [] = (λ (p, e). ground arith, λ fits. absurd (omega arith))
decode-IsOk (a ∷ []) = (λ (p, e). ground arith, λ fits. absurd (omega arith))
decode-IsOk (a ∷ b ∷ []) = (λ (p, e). ground arith, λ fits. absurd (omega arith))
decode-IsOk (a ∷ b ∷ c ∷ []) = (λ (p, e). ground arith, λ fits. absurd (omega arith))
