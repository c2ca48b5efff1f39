-- ===== src/Authd/Loop/BadIdentity.antt =====
-- crates/authd/src/dispatch.rs and worker.rs: an identity that is refused as a `User-Name`.
use usg_authenticator.Prelude.{ℕ, ◌≡◌, ◌≢◌, refl, List, [], ◌∷◌, some, err, arith}
use usg_authenticator.Pacp.Ethernet.{MacAddr}
use usg_authenticator.Pacp.Eap.{response}
use usg_authenticator.Pae.Config.{TimerKind}
use usg_authenticator.Pae.Effect.{to_auth_server, cancel_timer, arm_timer}
use usg_authenticator.Pae.Event.{InboundEap, eap_from_supplicant}
use usg_authenticator.Pae.Session.{PortSession, connecting}
use usg_authenticator.Pae.Step.{step, in_connecting, by_state}
use usg_authenticator.Pae.Port.{DirectedEffect, PortPae, find, handle, decorate}
use usg_authenticator.Radius.Error.{invalid_user_name}
use usg_authenticator.Radius.Proto.{RadiusProto}
use usg_authenticator.Radius.Context.{RequestContext}
use usg_authenticator.Radius.Request.{access_request_eap}
use usg_authenticator.Radius.Sanitize
use usg_authenticator.Authd.Error.{radius}
use usg_authenticator.Authd.Session.{RadiusSession, build_eap_request}
use usg_authenticator.Authd.Deps.{Deps}
use usg_authenticator.Authd.Dispatch.{St, eap_identity, relay_eap}
use usg_authenticator.Authd.Loop.{perform, dispatch_all, handle_event, drain}

module _ (P : RadiusProto) (D : Deps P) (eap : InboundEap) (name : List ℕ)
    (named : eap_identity eap.packet ≡ some name)
    (refused : Sanitize.user_name {E = P.PacketError} name ≡ err invalid_user_name)
    (given : eap.packet ≢ []) where
  request_refused :
      (ctx : RequestContext) (auth secret : List ℕ) (s : RadiusSession)
      → (build_eap_request P D.Failure ctx (some name) eap.packet auth secret s).1
        ≡ err (radius invalid_user_name)
  unfolding build_eap_request access_request_eap
  request_refused ctx auth secret s = grind arith

  relay_refused :
      (mac : MacAddr) (st : St P D)
      → (relay_eap P D mac eap.packet st).1 ≡ err (radius invalid_user_name)
  unfolding relay_eap
  relay_refused mac st = rw named (grind (arith, request_refused))

  abbrev relayed : MacAddr → List DirectedEffect
  relayed mac =
      record { mac = some mac; effect = cancel_timer TimerKind.tx_period }
      ∷ record { mac = some mac; effect = to_auth_server eap.packet }
      ∷ record { mac = some mac; effect = arm_timer TimerKind.server_timeout }
      ∷ []

  handle-relayed :
      (p : PortPae) (mac : MacAddr) (s : PortSession)
      → find mac p.sessions ≡ some s
      → s.state ≡ connecting
      → eap.code ≡ response
      → (handle p mac (eap_from_supplicant eap)).1 ≡ relayed mac
  unfolding handle step by_state in_connecting decorate
  handle-relayed p mac s found here reply = grind arith

  dispatch_all-relayed :
      (mac : MacAddr) (st : St P D)
      → (dispatch_all P D mac (relayed mac) st).1 ≡ err (radius invalid_user_name)
  unfolding dispatch_all perform
  dispatch_all-relayed mac st = grind (arith, relay_refused)

  -- The response of a connecting station that names an identity refused as a User-Name ends
  -- handle_event with that error.
  pub bad_identity_fails :
      (p : PortPae) (mac : MacAddr) (s : PortSession) (st : St P D)
      → find mac p.sessions ≡ some s
      → s.state ≡ connecting
      → eap.code ≡ response
      → (handle_event P D p mac (eap_from_supplicant eap) st).1.1 ≡ err (radius invalid_user_name)
  unfolding handle_event drain
  bad_identity_fails p mac s st found here reply =
      rw (handle-relayed p mac s found here reply, handle_event, drain)
        (rw (dispatch_all-relayed mac st, drain) refl)
