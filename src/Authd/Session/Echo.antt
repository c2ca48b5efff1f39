-- ===== src/Authd/Session/Echo.antt =====
-- crates/authd/src/session.rs: the State that a session keeps and sends.
use usg_authenticator.Prelude.{ℕ, ◌≡◌, ◌≤◌, List, Option, some, ok, length, arith}
use usg_authenticator.Radius.Proto.{Packet, RadiusProto, IsLawful}
use usg_authenticator.Radius.Context.{RequestContext}
use usg_authenticator.Radius.Request.Echo.{Has, state_attribute, access_request_eap-Has}
use usg_authenticator.Authd.Session.{RadiusSession, next_identifier, build_eap_request}

module _ (P : RadiusProto) (F : Type 0) (L : IsLawful P) where
  -- With a lawful RADIUS codec, a request for EAP that is built while a State of at most 253
  -- octets is kept has that State as an attribute, also where it has a new identity, with which a
  -- conversation begins; and the State stays kept.
  pub state_echoed :
      (ctx : RequestContext) (identity : Option (List ℕ)) (eap auth secret x : List ℕ)
      (s t : RadiusSession) (q : Packet)
      → length x ≤ 253
      → s.last_state ≡ some x
      → build_eap_request P F ctx identity eap auth secret s ≡ (t, ok q)
      → Has (state_attribute x) q.attributes × (t.last_state ≡ some x)
  unfolding build_eap_request next_identifier
  state_echoed ctx identity eap auth secret x s t q short kept built =
      grind (arith, access_request_eap-Has P L x short)
