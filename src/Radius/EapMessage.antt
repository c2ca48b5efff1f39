-- ===== src/Radius/EapMessage.antt =====
-- crates/radius-client/src/eap_message.rs: an EAP packet cut into attributes and put together again.
use usg_authenticator.Prelude.{
  ℕ, zero, suc, ◌≤◌, ◌≡◌, refl, ap, ◌∙◌, List, [], ◌∷◌, ◌++◌, append-nil, append_assoc, length,
  take, drop, take-append-drop, length-drop, All, map, Result, ok, ◌>>=◌, map_err, arith,
}
use usg_authenticator.Radius.Consts.{eap_message, max_attr_value}
use usg_authenticator.Radius.Proto.{Attribute, Packet, RadiusProto, IsLawful, all_of}
use usg_authenticator.Radius.Error.{RadiusClientError, proto}

-- `chunks(MAX_ATTR_VALUE)`; a round takes an octet at least, so `length` rounds are enough.
unfoldable pub chunks_from : ℕ → List ℕ → List (List ℕ)
chunks_from zero xs = []
chunks_from (suc fuel) [] = []
chunks_from (suc fuel) (x ∷ xs) =
    take max_attr_value (x ∷ xs) ∷ chunks_from fuel (drop max_attr_value (x ∷ xs))

unfoldable pub chunks : List ℕ → List (List ℕ)
chunks xs = chunks_from (length xs) xs

abbrev pub flatten : List (List ℕ) → List ℕ
flatten [] = []
flatten (c ∷ cs) = c ++ flatten cs

abbrev pub Fits : List ℕ → Type 0
Fits c = length c ≤ max_attr_value

flatten-chunks_from :
    (fuel : ℕ) (xs : List ℕ) → length xs ≤ fuel → flatten (chunks_from fuel xs) ≡ xs
unfolding chunks_from
flatten-chunks_from zero [] h = refl
flatten-chunks_from zero (x ∷ xs) h = absurd (omega arith)
flatten-chunks_from (suc fuel) [] h = refl
flatten-chunks_from (suc fuel) (x ∷ xs) h =
    rw
      (flatten-chunks_from fuel (drop max_attr_value (x ∷ xs))
        (omega (arith, length-drop max_attr_value (x ∷ xs))))
      (take-append-drop max_attr_value (x ∷ xs))

length-take-bound : (n : ℕ) (xs : List ℕ) → length (take n xs) ≤ n
length-take-bound zero xs = omega arith
length-take-bound (suc n) [] = omega arith
length-take-bound (suc n) (x ∷ xs) = omega (arith, length-take-bound n xs)

chunks_from-Fits : (fuel : ℕ) (xs : List ℕ) → All Fits (chunks_from fuel xs)
unfolding chunks_from
chunks_from-Fits zero xs = tt
chunks_from-Fits (suc fuel) [] = tt
chunks_from-Fits (suc fuel) (x ∷ xs) = (
  length-take-bound max_attr_value (x ∷ xs),
  chunks_from-Fits fuel (drop max_attr_value (x ∷ xs)),
)

unfoldable pub values : List Attribute → List ℕ
values [] = []
values (a ∷ rest) = a.value ++ values rest

module _ (P : RadiusProto) where
  abbrev pub R {ℓ} : Type ℓ → Type ℓ
  R A = Result (RadiusClientError P.PacketError) A

  unfoldable pub push_all : List (List ℕ) → Packet → R Packet
  push_all [] p = ok p
  push_all (c ∷ cs) p = do
    a ← map_err proto (P.attribute_new eap_message c)
    push_all cs (P.add_attribute p a)

  unfoldable pub fragment_into : Packet → List ℕ → R Packet
  fragment_into p eap = push_all (chunks eap) p

  unfoldable pub reassemble : Packet → List ℕ
  reassemble p = values (P.find_all_attributes p eap_message)

abbrev pub as_attribute : List ℕ → Attribute
as_attribute c = record { attr_type = eap_message; value = c }

all_of-append : (t : ℕ) (xs ys : List Attribute) → all_of t (xs ++ ys) ≡ all_of t xs ++ all_of t ys
all_of-append t [] ys = refl
all_of-append t (x ∷ xs) ys = ground (arith, all_of-append t xs ys)

all_of-map : (cs : List (List ℕ)) → all_of eap_message (map as_attribute cs) ≡ map as_attribute cs
all_of-map [] = refl
all_of-map (c ∷ cs) = ap (λ l. as_attribute c ∷ l) (all_of-map cs)

values-map : (cs : List (List ℕ)) → values (map as_attribute cs) ≡ flatten cs
unfolding values
values-map [] = refl
values-map (c ∷ cs) = ap (λ l. c ++ l) (values-map cs)

chunks-Fits : (eap : List ℕ) → All Fits (chunks eap)
unfolding chunks
chunks-Fits eap = chunks_from-Fits (length eap) eap

flatten-chunks : (eap : List ℕ) → flatten (chunks eap) ≡ eap
unfolding chunks
flatten-chunks eap = flatten-chunks_from (length eap) eap (omega arith)

Fits-map :
    (cs : List (List ℕ)) → All Fits cs → All (λ a. length a.value ≤ 253) (map as_attribute cs)
Fits-map [] h = tt
Fits-map (c ∷ cs) h = (h.0, Fits-map cs h.1)

module _ (P : RadiusProto) (L : IsLawful P) where
  push_all-Fits :
      (cs : List (List ℕ)) (p : Packet)
      → All Fits cs
      → push_all P cs p ≡ ok (record p { attributes = p.attributes ++ map as_attribute cs })
  unfolding push_all
  push_all-Fits [] p h = rw append-nil
  push_all-Fits (c ∷ cs) p h =
      rw (L.attribute_new_lem eap_message c h.0, L.add_attribute_lem)
        (push_all-Fits cs (record p { attributes = p.attributes ++ (as_attribute c ∷ []) }) h.1
          ∙ rw append_assoc)

  -- With a lawful RADIUS codec, a packet with no EAP-Message takes any EAP packet in attributes of
  -- at most 253 octets, and reassembled they are the EAP packet, octet for octet.
  pub reassemble-fragment_into :
      (p : Packet) (eap : List ℕ)
      → all_of eap_message p.attributes ≡ []
      → (q : Packet) × (fragment_into P p eap ≡ ok q)
        × (reassemble P q ≡ eap)
        × All (λ a. length a.value ≤ 253) (all_of eap_message q.attributes)
  unfolding fragment_into reassemble
  reassemble-fragment_into p eap h =
      let cs = chunks eap in
      let found : all_of eap_message (p.attributes ++ map as_attribute cs) ≡ map as_attribute cs =
        all_of-append eap_message p.attributes (map as_attribute cs) ∙ rw h (all_of-map cs) in
      (
        record p { attributes = p.attributes ++ map as_attribute cs },
        push_all-Fits cs p (chunks-Fits eap),
        rw (L.find_all_attributes_lem, found) (values-map cs ∙ flatten-chunks eap),
        rw found (Fits-map cs (chunks-Fits eap)),
      )
