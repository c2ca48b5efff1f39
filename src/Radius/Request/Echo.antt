-- ===== src/Radius/Request/Echo.antt =====
-- crates/radius-client/src/request.rs: the attributes that a request keeps while it is built, and the
-- State that it echoes.
use usg_authenticator.Prelude.{
  ℕ, ◌≡◌, ◌≢◌, ◌≤◌, refl, List, [], ◌∷◌, ◌++◌, Option, some, ok, length, arith, ◌⊎◌, inl, inr,
}
use usg_authenticator.Radius.Consts.{message_authenticator, state}
use usg_authenticator.Radius.Proto.{Attribute, Packet, RadiusProto, IsLawful}
use usg_authenticator.Radius.Context.{RequestContext, append_nas_attributes}
use usg_authenticator.Radius.EapMessage.{push_all, fragment_into}
use usg_authenticator.Radius.Request.{
  overwrite, seal_message_authenticator, push_state, access_request_eap,
}

abbrev pub Has : Attribute → List Attribute → Type 0
Has a [] = ⊥
Has a (b ∷ bs) = (b ≡ a) ⊎ Has a bs

Has-append : (a : Attribute) (xs ys : List Attribute) → Has a xs → Has a (xs ++ ys)
Has-append a [] ys h = absurd h
Has-append a (x ∷ xs) ys (inl here) = inl here
Has-append a (x ∷ xs) ys (inr there) = inr (Has-append a xs ys there)

Has-last : (a : Attribute) (xs : List Attribute) → Has a (xs ++ (a ∷ []))
Has-last a [] = inl refl
Has-last a (x ∷ xs) = inr (Has-last a xs)

Has-overwrite :
    (a : Attribute) (v : List ℕ) (xs : List Attribute)
    → a.attr_type ≢ message_authenticator
    → Has a xs
    → Has a (overwrite v xs)
Has-overwrite a v [] ne h = absurd h
Has-overwrite a v (x ∷ xs) ne (inl here) = inl (ground arith)
Has-overwrite a v (x ∷ xs) ne (inr there) = inr (Has-overwrite a v xs ne there)

module _ (P : RadiusProto) (L : IsLawful P) (a : Attribute)
    (ne : a.attr_type ≢ message_authenticator) where
  add-Has :
      (p : Packet) (b : Attribute) → Has a p.attributes → Has a (P.add_attribute p b).attributes
  add-Has p b h = rw (L.add_attribute_lem p b) (Has-append a p.attributes (b ∷ []) h)

  append_nas_attributes-Has :
      (ctx : RequestContext) (p q : Packet)
      → append_nas_attributes P ctx p ≡ ok q
      → Has a p.attributes
      → Has a q.attributes
  unfolding append_nas_attributes
  append_nas_attributes-Has ctx p q e h = grind (arith, add-Has)

  push_all-Has :
      (cs : List (List ℕ)) (p q : Packet)
      → push_all P cs p ≡ ok q
      → Has a p.attributes
      → Has a q.attributes
  unfolding push_all
  push_all-Has [] p q e h = grind arith
  push_all-Has (c ∷ cs) p q e h = grind (arith, add-Has, push_all-Has cs)

  seal-Has :
      (secret : List ℕ) (p q : Packet)
      → seal_message_authenticator P secret p ≡ ok q
      → Has a p.attributes
      → Has a q.attributes
  unfolding seal_message_authenticator
  seal-Has secret p q e h = grind (arith, add-Has, Has-overwrite)

-- The attribute of a State.
abbrev pub state_attribute : List ℕ → Attribute
state_attribute x = record { attr_type = state; value = x }

module _ (P : RadiusProto) (L : IsLawful P) (x : List ℕ) (short : length x ≤ 253) where
  not_signed : (state_attribute x).attr_type ≢ message_authenticator
  not_signed e = ground arith

  push_state-Has :
      (p q : Packet) → push_state P (some x) p ≡ ok q → Has (state_attribute x) q.attributes
  push_state-Has p q e = ground (
    arith,
    L.attribute_new_lem state x short,
    L.add_attribute_lem p (state_attribute x),
    Has-last (state_attribute x) p.attributes,
  )

  -- A request that is built with a State has it.
  pub access_request_eap-Has :
      (ctx : RequestContext) (id : ℕ) (auth : List ℕ) (identity : Option (List ℕ))
      (eap secret : List ℕ) (q : Packet)
      → access_request_eap P ctx id auth identity (some x) eap secret ≡ ok q
      → Has (state_attribute x) q.attributes
  unfolding access_request_eap fragment_into
  access_request_eap-Has ctx id auth identity eap secret q e = grind (
    arith,
    push_state-Has,
    append_nas_attributes-Has P L (state_attribute x) not_signed,
    push_all-Has P L (state_attribute x) not_signed,
    seal-Has P L (state_attribute x) not_signed,
  )
