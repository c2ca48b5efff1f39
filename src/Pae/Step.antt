-- ===== src/Pae/Step.antt =====
-- crates/pae/src/session.rs: `PortSession::step` and its handler for each state.
pub mod Grants
pub mod Fallback
pub mod Retry
pub mod Stale
use usg_authenticator.Prelude.{◌+◌, List, [], ◌∷◌, ltb, if◌then◌else◌, false, none}
use usg_authenticator.Pae.Config.{TimerKind, PaeConfig}
use usg_authenticator.Pae.Effect.{
  TerminateCause, supplicant_logoff, port_link_down, admin_reset, reauth_failure, unauthorized,
  to_auth_server, tx_eap_to_supplicant, set_authorization, arm_timer, cancel_timer,
}
use usg_authenticator.Pae.Event.{
  InboundEap, Event, enable, link_up, link_down, eapol_start, eapol_logoff, eap_from_supplicant,
  access_challenge, access_accept, access_reject, server_unreachable, timer, coa_disconnect,
  coa_reauthenticate, coa_authorize,
}
use usg_authenticator.Pae.Session.{
  dot1x, State, new, connecting, auth_server, authenticating, authenticated, held, in_fallback,
  PortSession, Outcome, is_authenticated, is_critical, is_response, after, send_identity, hold,
  teardown, begin_reauth, coa_authorized, no_supplicant, authorize, reject, unreachable,
}

unfoldable pub on_enable : PortSession → Outcome
unfolding send_identity
on_enable s = after (set_authorization unauthorized ∷ []) (
    send_identity (record s {
      authz = none;
      accounting_open = false;
      auth_kind = dot1x;
      tx_count = 1;
      state = connecting;
    }))

-- A response of the supplicant goes to the server; any other EAP packet is dropped.
abbrev relay_response : PortSession → InboundEap → TimerKind → Outcome
relay_response s eap waiting =
    if is_response eap.code
    then (
      record s { state = auth_server },
      cancel_timer waiting ∷ to_auth_server eap.packet ∷ arm_timer TimerKind.server_timeout ∷ [],
    )
    else (s, [])

unfoldable pub in_connecting : PortSession → Event → PaeConfig → Outcome
unfolding send_identity no_supplicant teardown
in_connecting s eapol_start cfg = send_identity s
in_connecting s link_up cfg = send_identity s
in_connecting s (timer TimerKind.tx_period) cfg =
    if ltb s.tx_count cfg.max_reauth_req
    then send_identity (record s { tx_count = s.tx_count + 1 })
    else no_supplicant s cfg
in_connecting s (eap_from_supplicant eap) cfg =
    if is_response eap.code
    then relay_response (record s { auth_kind = dot1x }) eap TimerKind.tx_period
    else (s, [])
in_connecting s eapol_logoff cfg = teardown s supplicant_logoff
in_connecting s _ cfg = (s, [])

unfoldable pub in_auth_server : PortSession → Event → PaeConfig → Outcome
unfolding authorize reject unreachable teardown
in_auth_server s (access_challenge eap) cfg = (
  record s { state = authenticating },
  cancel_timer TimerKind.server_timeout
      ∷ tx_eap_to_supplicant eap
      ∷ arm_timer TimerKind.supp_timeout
      ∷ [],
)
in_auth_server s (access_accept authorization eap) cfg = authorize s authorization eap cfg
in_auth_server s (access_reject eap) cfg = reject s eap cfg
in_auth_server s server_unreachable cfg = unreachable s cfg
in_auth_server s (timer TimerKind.server_timeout) cfg = unreachable s cfg
in_auth_server s eapol_logoff cfg = teardown s supplicant_logoff
in_auth_server s _ cfg = (s, [])

unfoldable pub in_authenticating : PortSession → Event → Outcome
unfolding teardown hold send_identity
in_authenticating s (eap_from_supplicant eap) = relay_response s eap TimerKind.supp_timeout
in_authenticating s (timer TimerKind.supp_timeout) =
    if s.accounting_open then teardown s reauth_failure else hold s
in_authenticating s eapol_start =
    after (cancel_timer TimerKind.supp_timeout ∷ [])
      (send_identity (record s { state = connecting }))
in_authenticating s eapol_logoff = teardown s supplicant_logoff
in_authenticating s _ = (s, [])

-- The session's lifetime ends in a full teardown, and the supplicant is solicited anew.
abbrev expire : PortSession → Outcome
expire s =
    let (t, fx) = teardown s TerminateCause.session_timeout in
    after fx (send_identity (record t { tx_count = 1; state = connecting }))

unfoldable pub in_authenticated : PortSession → Event → Outcome
unfolding begin_reauth teardown send_identity
in_authenticated s (timer TimerKind.reauth) = begin_reauth s
in_authenticated s eapol_start = begin_reauth s
in_authenticated s eapol_logoff = teardown s supplicant_logoff
in_authenticated s (timer TimerKind.session_timeout) = expire s
in_authenticated s _ = (s, [])

abbrev retry_held : PortSession → Outcome
retry_held s =
    after (cancel_timer TimerKind.held ∷ [])
      (send_identity (record s { tx_count = 1; state = connecting }))

unfoldable pub in_held : PortSession → Event → Outcome
unfolding send_identity
in_held s (timer TimerKind.held) = retry_held s
in_held s eapol_start = retry_held s
in_held s _ = (s, [])

abbrev leave_fallback : PortSession → Outcome
leave_fallback s = send_identity (record s { tx_count = 1; state = connecting })

unfoldable pub in_fallback_vlan : PortSession → Event → Outcome
unfolding send_identity
in_fallback_vlan s eapol_start = leave_fallback s
in_fallback_vlan s (timer TimerKind.server_timeout) =
    if is_critical s.state then leave_fallback s else (s, [])
in_fallback_vlan s _ = (s, [])

-- The second `match`, on the state, for the events that are not handled in every state.
unfoldable pub by_state : State → PortSession → Event → PaeConfig → Outcome
unfolding in_connecting in_auth_server in_authenticating in_authenticated in_held in_fallback_vlan
by_state connecting s event cfg = in_connecting s event cfg
by_state auth_server s event cfg = in_auth_server s event cfg
by_state authenticating s event cfg = in_authenticating s event
by_state authenticated s event cfg = in_authenticated s event
by_state held s event cfg = in_held s event
by_state (in_fallback reason) s event cfg = in_fallback_vlan s event
by_state new s event cfg = (s, [])

unfoldable pub step : PortSession → Event → PaeConfig → Outcome
unfolding teardown coa_authorized begin_reauth on_enable by_state
step s link_down cfg = teardown s port_link_down
step s coa_disconnect cfg = teardown s admin_reset
step s (coa_authorize authorization) cfg = coa_authorized s authorization
step s coa_reauthenticate cfg = if is_authenticated s.state then begin_reauth s else (s, [])
step s enable cfg = on_enable s
step s event cfg = by_state s.state s event cfg

-- The session after a list of events, and all the effects in order.
unfoldable pub run : PortSession → List Event → PaeConfig → Outcome
run s [] cfg = (s, [])
run s (e ∷ es) cfg = let (t, fx) = step s e cfg in after fx (run t es cfg)
