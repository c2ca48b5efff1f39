-- ===== src/Pae/World/Consistent.antt =====
-- crates/pae/src/session.rs: the session's state and what its effects have made of the world agree
-- after every event.
use usg_authenticator.Prelude.{◌≡◌, refl, Bool, true, false, Option, none, some, arith}
use usg_authenticator.Pacp.Ethernet.{MacAddr}
use usg_authenticator.Pae.Config.{TimerKind, PaeConfig}
use usg_authenticator.Pae.Effect.{
  Authorization, FallbackReason, TerminateCause, critical, PortAuthorization, authorized,
  unauthorized, fallback,
}
use usg_authenticator.Pae.Event.{
  Event, enable, link_down, eap_from_supplicant, access_accept, timer, coa_disconnect,
  coa_reauthenticate, coa_authorize,
}
use usg_authenticator.Pae.Session.{
  State, new, connecting, auth_server, authenticating, authenticated, held, in_fallback,
  PortSession, Outcome, new_session, is_some,
}
use usg_authenticator.Pae.Step.{
  step, on_enable, by_state, in_connecting, in_auth_server, in_authenticating, in_authenticated,
  in_held, in_fallback_vlan,
}
use usg_authenticator.Pae.Session.{teardown, coa_authorized, begin_reauth}
use usg_authenticator.Pae.World.{Ledger, closed, opened, World, perform_all, expired, start_world}

abbrev pub is_authorized : PortAuthorization → Bool
is_authorized (authorized _) = true
is_authorized _ = false

-- What the port must show: the granted authorization while there is one, and else no grant.
abbrev pub Shows : Option Authorization → PortAuthorization → Type 0
Shows (some a) p = p ≡ authorized a
Shows none p = is_authorized p ≡ false

-- The reason of a fallback VLAN that is really applied.
abbrev pub reason_of : PortAuthorization → Option FallbackReason
reason_of (fallback r (some _)) = some r
reason_of _ = none

abbrev pub ledger_of : Bool → Ledger
ledger_of true = opened
ledger_of false = closed

-- A critical fallback waits for the next try of the server.
abbrev pub Retries : FallbackReason → World → Type 0
Retries critical w = w.timers.server_timeout ≡ true
Retries _ w = Unit

-- In each state, whether a session is open, what the port shows, and the timer that ends the wait.
abbrev pub InState : State → Bool → World → Type 0
InState new live w = (live ≡ false) × (w.posture ≡ unauthorized)
InState connecting live w = w.timers.tx_period ≡ true
InState auth_server live w = w.timers.server_timeout ≡ true
InState authenticating live w = w.timers.supp_timeout ≡ true
InState authenticated live w = live ≡ true
InState held live w = (live ≡ false) × (w.posture ≡ unauthorized) × (w.timers.held ≡ true)
InState (in_fallback r) live w = (live ≡ false) × (reason_of w.posture ≡ some r) × Retries r w

pub record Consistent (s : PortSession) (w : World) : Type 0 where
  pub granted : is_some s.authz ≡ s.accounting_open
  pub shown : Shows s.authz w.posture
  pub accounted : w.ledger ≡ ledger_of s.accounting_open
  pub in_state : InState s.state s.accounting_open w

-- `enable` is for a session that is not open.
abbrev pub IsAdmissible : Event → PortSession → Type 0
IsAdmissible enable s = s.accounting_open ≡ false
IsAdmissible _ s = Unit

-- The outcome of a handler and the world after its effects.
abbrev pub Leaves : Outcome → World → Type 0
Leaves o w = Consistent o.0 (perform_all o.1 w)

pub new_session-Consistent : (mac : MacAddr) → Consistent (new_session mac) start_world
unfolding new_session
new_session-Consistent mac = ground arith

module _ (s : PortSession) (w : World) (cfg : PaeConfig) (h : Consistent s w) where
  teardown-Consistent : (c : TerminateCause) → Leaves (teardown s c) w
  unfolding teardown
  teardown-Consistent c = ground arith

  coa_authorized-Consistent : (a : Authorization) → Leaves (coa_authorized s a) w
  unfolding coa_authorized
  coa_authorized-Consistent a = ground arith

  begin_reauth-Consistent : Leaves (begin_reauth s) w
  unfolding begin_reauth
  begin_reauth-Consistent = ground arith

  on_enable-Consistent : s.accounting_open ≡ false → Leaves (on_enable s) w
  unfolding on_enable
  on_enable-Consistent c = ground arith

  in_connecting-Consistent :
      (e : Event) → s.state ≡ connecting → Leaves (in_connecting s e cfg) (expired e w)
  unfolding in_connecting
  in_connecting-Consistent (timer TimerKind.tx_period) c = ground arith
  in_connecting-Consistent (eap_from_supplicant eap) c = ground arith
  in_connecting-Consistent _ c = ground arith

  in_auth_server-Consistent :
      (e : Event) → s.state ≡ auth_server → Leaves (in_auth_server s e cfg) (expired e w)
  unfolding in_auth_server
  in_auth_server-Consistent (timer TimerKind.server_timeout) c = ground arith
  in_auth_server-Consistent (access_accept a eap) c = ground arith
  in_auth_server-Consistent _ c = ground arith

  in_authenticating-Consistent :
      (e : Event) → s.state ≡ authenticating → Leaves (in_authenticating s e) (expired e w)
  unfolding in_authenticating
  in_authenticating-Consistent (timer TimerKind.supp_timeout) c = ground arith
  in_authenticating-Consistent (eap_from_supplicant eap) c = ground arith
  in_authenticating-Consistent _ c = ground arith

  in_authenticated-Consistent :
      (e : Event) → s.state ≡ authenticated → Leaves (in_authenticated s e) (expired e w)
  unfolding in_authenticated
  in_authenticated-Consistent (timer TimerKind.reauth) c = ground arith
  in_authenticated-Consistent (timer TimerKind.session_timeout) c = ground arith
  in_authenticated-Consistent _ c = ground arith

  in_held-Consistent : (e : Event) → s.state ≡ held → Leaves (in_held s e) (expired e w)
  unfolding in_held
  in_held-Consistent (timer TimerKind.held) c = ground arith
  in_held-Consistent _ c = ground arith

  in_fallback_vlan-Consistent :
      (r : FallbackReason) (e : Event)
      → s.state ≡ in_fallback r
      → Leaves (in_fallback_vlan s e) (expired e w)
  unfolding in_fallback_vlan
  in_fallback_vlan-Consistent r (timer TimerKind.server_timeout) c = ground arith
  in_fallback_vlan-Consistent r _ c = ground arith

  by_state-Consistent :
      (t : State) (e : Event) → s.state ≡ t → Leaves (by_state t s e cfg) (expired e w)
  unfolding by_state
  by_state-Consistent connecting e c = in_connecting-Consistent e c
  by_state-Consistent auth_server e c = in_auth_server-Consistent e c
  by_state-Consistent authenticating e c = in_authenticating-Consistent e c
  by_state-Consistent authenticated e c = in_authenticated-Consistent e c
  by_state-Consistent held e c = in_held-Consistent e c
  by_state-Consistent (in_fallback r) e c = in_fallback_vlan-Consistent r e c
  by_state-Consistent new (timer k) c = ground arith
  by_state-Consistent new _ c = ground arith

  -- After every event that a session may be given (Enable only while it is not open), in every
  -- state and on every branch, the session and what its effects have made of the world agree: the
  -- port shows the grant that the session holds, or no grant; accounting is open exactly with the
  -- session; and the timer that the state waits for is armed.
  pub step-Consistent : (e : Event) → IsAdmissible e s → Leaves (step s e cfg) (expired e w)
  unfolding step
  step-Consistent link_down a = teardown-Consistent _
  step-Consistent coa_disconnect a = teardown-Consistent _
  step-Consistent (coa_authorize authorization) a = coa_authorized-Consistent authorization
  step-Consistent coa_reauthenticate a = ground (arith, begin_reauth-Consistent)
  step-Consistent enable a = on_enable-Consistent a
  step-Consistent e a = by_state-Consistent s.state e refl
