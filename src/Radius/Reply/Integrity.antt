-- ===== src/Radius/Reply/Integrity.antt =====
-- crates/radius-client/src/reply.rs and request.rs: what a message authenticator protects.
use usg_authenticator.Prelude.{
  ℕ, ◌≡◌, refl, ◌∙◌, List, [], ◌∷◌, ◌++◌, true, length, Option, none, some, ok, arith, Option-cases,
  Result-cases, Bool-cases, inl, inr, text_eq_iff,
}
use usg_authenticator.Radius.Consts.{eap_message, message_authenticator}
use usg_authenticator.Radius.Proto.{Attribute, Packet, RadiusProto, IsLawful, first_of}
use usg_authenticator.Radius.Request.{
  zeros, overwrite, any_authenticator, signed, seal_message_authenticator,
}
use usg_authenticator.Radius.Reply.{verify_message_authenticator, verify_reply}

-- The reply with the request's authenticator in place and every Message-Authenticator zeroed.
abbrev pub zeroed : List ℕ → Packet → Packet
zeroed auth reply = record reply {
  authenticator = auth;
  attributes = overwrite zeros reply.attributes;
}

module _ (P : RadiusProto) where
  -- A reply with no Message-Authenticator carries no EAP; one that it has is the right one.
  abbrev pub Protected : Packet → List ℕ → List ℕ → Option Attribute → Type 0
  Protected reply auth secret none = P.find_attribute reply eap_message ≡ none
  Protected reply auth secret (some a) =
      (length a.value ≡ 16)
      × ((bytes : List ℕ) × (P.encode (zeroed auth reply) ≡ ok bytes)
          × (P.calculate_message_authenticator bytes secret ≡ a.value))

  -- A reply that passes the check has a valid Response Authenticator, has a Message-Authenticator
  -- if it carries EAP, and one that it has is 16 octets long and is the authenticator of the reply
  -- with the authenticator of the request in place and the attribute zeroed.
  pub verify_reply-true :
      (reply : Packet) (auth secret : List ℕ)
      → verify_reply P reply auth secret ≡ true
      → (P.verify_response_authenticator reply auth secret ≡ true)
        × Protected reply auth secret (P.find_attribute reply message_authenticator)
  unfolding verify_reply verify_message_authenticator
  verify_reply-true reply auth secret h = (
    ground arith,
    elim (Option-cases (P.find_attribute reply message_authenticator)) [
      | inl absent ↦ rw absent (ground arith)
      | inr (a, found) ↦ elim (Result-cases (P.encode (zeroed auth reply))) [
        | inr (x, e) ↦ ground arith
        | inl (bytes, e) ↦ rw found (
          ground arith,
          (
            bytes,
            e,
            ground (arith, text_eq_iff (P.calculate_message_authenticator bytes secret) a.value),
          ),
        )
      ]
    ],
  )

overwrite_twice :
    (u v : List ℕ) (xs : List Attribute) → overwrite u (overwrite v xs) ≡ overwrite u xs
overwrite_twice u v [] = refl
overwrite_twice u v (x ∷ xs) = ground (arith, overwrite_twice u v xs)

first_of-overwrite :
    (v : List ℕ) (xs : List Attribute)
    → any_authenticator xs ≡ true
    → first_of message_authenticator (overwrite v xs)
      ≡ some (record { attr_type = message_authenticator; value = v })
first_of-overwrite v [] h = cc
first_of-overwrite v (x ∷ xs) h = ground (arith, first_of-overwrite v xs)

any_authenticator-overwrite :
    (v : List ℕ) (xs : List Attribute) → any_authenticator (overwrite v xs) ≡ any_authenticator xs
any_authenticator-overwrite v [] = refl
any_authenticator-overwrite v (x ∷ xs) = ground (arith, any_authenticator-overwrite v xs)

any_authenticator-append :
    (xs : List Attribute) (v : List ℕ)
    → any_authenticator (xs ++ (record { attr_type = message_authenticator; value = v } ∷ []))
      ≡ true
any_authenticator-append [] v = refl
any_authenticator-append (x ∷ xs) v = ground (arith, any_authenticator-append xs v)

module _ (P : RadiusProto) (L : IsLawful P)
    (sixteen : (bytes secret : List ℕ)
      → length (P.calculate_message_authenticator bytes secret) ≡ 16) where
  signed-verifies :
      (secret : List ℕ) (p q : Packet)
      → any_authenticator p.attributes ≡ true
      → signed P secret p ≡ ok q
      → verify_message_authenticator P q q.authenticator secret ≡ true
  unfolding verify_message_authenticator
  signed-verifies secret p q has h = elim (Result-cases (P.encode (zeroed p.authenticator p))) [
    | inr (x, e) ↦ ground arith
    | inl (bytes, e) ↦
        let mac = P.calculate_message_authenticator bytes secret in
        let blank = overwrite zeros p.attributes in
        let sealed : q ≡ record p { attributes = overwrite mac blank } = ground arith in
        rw
          (
            sealed,
            L.find_attribute_lem,
            L.find_attribute_lem,
            first_of-overwrite mac blank (any_authenticator-overwrite zeros p.attributes ∙ has),
            overwrite_twice zeros mac blank,
            overwrite_twice zeros zeros p.attributes,
            e,
          )
          (ground (arith, sixteen bytes secret, text_eq_iff mac mac))
  ]

  -- With a lawful RADIUS codec whose HMAC has 16 octets, a request that is sealed passes the check
  -- of its Message-Authenticator against its own authenticator.
  pub seal-verifies :
      (secret : List ℕ) (p q : Packet)
      → seal_message_authenticator P secret p ≡ ok q
      → verify_message_authenticator P q q.authenticator secret ≡ true
  unfolding seal_message_authenticator
  seal-verifies secret p q h = elim (Bool-cases (any_authenticator p.attributes)) [
    | inl has ↦ signed-verifies secret p q has (rw has at h)
    | inr lacks ↦ signed-verifies secret _ q (any_authenticator-append p.attributes zeros) (
        rw
          (
            lacks,
            L.attribute_new_lem message_authenticator zeros (omega arith),
            L.add_attribute_lem,
          )
          at h)
  ]
