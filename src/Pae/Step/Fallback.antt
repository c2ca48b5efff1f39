-- ===== src/Pae/Step/Fallback.antt =====
-- crates/pae/src/session.rs: the fallback VLANs, and what happens when the server is silent.
use usg_authenticator.Prelude.{
  ◌≡◌, ◌≢◌, refl, Bool, true, false, Option, none, some, arith, Text, All, ◌⊎◌,
}
use usg_authenticator.Pae.Config.{TimerKind, PaeConfig}
use usg_authenticator.Pae.Effect.{
  Authorization, FallbackReason, guest, auth_fail, critical, PortAuthorization, unauthorized,
  fallback, Effect, set_authorization,
}
use usg_authenticator.Pae.Event.{
  Event, enable, link_down, server_unreachable, timer, coa_disconnect, coa_reauthenticate,
  coa_authorize,
}
use usg_authenticator.Pae.Session.{
  State, new, connecting, auth_server, authenticating, authenticated, held, in_fallback,
  PortSession,
}
use usg_authenticator.Pae.Step.{step, by_state}
use usg_authenticator.Pae.World.{World, perform_all, expired}
use usg_authenticator.Pae.World.Consistent.{Consistent}

-- The VLAN that the configuration gives to each reason.
abbrev pub vlan_for : PaeConfig → FallbackReason → Option Text
vlan_for cfg guest = cfg.guest_vlan
vlan_for cfg auth_fail = cfg.auth_fail_vlan
vlan_for cfg critical = cfg.critical_vlan

-- An effect that opens a fallback VLAN opens the configured one, which exists.
abbrev pub IsConfigured : PaeConfig → Effect → Type 0
IsConfigured cfg (set_authorization (fallback r v)) = (v ≡ vlan_for cfg r) × (v ≢ none)
IsConfigured cfg _ = Unit

by_state-IsConfigured :
    (t : State) (s : PortSession) (e : Event) (cfg : PaeConfig)
    → s.state ≡ t
    → All (IsConfigured cfg) (by_state t s e cfg).1
unfolding by_state
by_state-IsConfigured connecting s e cfg h = ground arith
by_state-IsConfigured auth_server s e cfg h = ground arith
by_state-IsConfigured authenticating s e cfg h = ground arith
by_state-IsConfigured authenticated s e cfg h = ground arith
by_state-IsConfigured held s e cfg h = ground arith
by_state-IsConfigured (in_fallback r) s e cfg h = ground arith
by_state-IsConfigured new s e cfg h = ground arith

-- No step opens a fallback VLAN unless the configuration names that VLAN for that reason.
pub step-IsConfigured :
    (s : PortSession) (e : Event) (cfg : PaeConfig) → All (IsConfigured cfg) (step s e cfg).1
unfolding step
step-IsConfigured s link_down cfg = ground arith
step-IsConfigured s coa_disconnect cfg = ground arith
step-IsConfigured s (coa_authorize a) cfg = ground arith
step-IsConfigured s coa_reauthenticate cfg = ground arith
step-IsConfigured s enable cfg = ground arith
step-IsConfigured s e cfg = by_state-IsConfigured s.state s e cfg refl

-- What an outage of the server does: to a session that is open or not, with a critical VLAN or
-- none, and a port with the given posture.
abbrev pub outage : Bool → Option Text → PortAuthorization → State × PortAuthorization
outage true vlan before = (authenticated, before)
outage false none before = (held, unauthorized)
outage false (some vlan) before = (in_fallback critical, fallback critical (some vlan))

-- A consistent session that waits for a server that is unreachable or silent: an open one is
-- authenticated with the posture it had, one that is not open goes to the critical VLAN, or is
-- held unauthorized if none is configured.
pub unreachable_outcome :
    (s : PortSession) (w : World) (e : Event) (cfg : PaeConfig)
    → Consistent s w
    → s.state ≡ auth_server
    → (e ≡ server_unreachable) ⊎ (e ≡ timer TimerKind.server_timeout)
    → let (t, fx) = step s e cfg in
      let v = perform_all fx (expired e w) in
      (t.state, v.posture) ≡ outage s.accounting_open cfg.critical_vlan w.posture
unfolding step
unreachable_outcome s w e cfg h c k = ground arith

-- If the lifetime of an open session ends while it waits for the server, the expiry is dropped; if
-- the server is then unreachable, the session is authenticated again with the posture it had, and
-- the timer of the lifetime is not armed.
pub session_timeout_lost :
    (s : PortSession) (w : World) (cfg : PaeConfig)
    → Consistent s w
    → s.state ≡ auth_server
    → s.accounting_open ≡ true
    → let (t, fx) = step s (timer TimerKind.session_timeout) cfg in
      let v = perform_all fx (expired (timer TimerKind.session_timeout) w) in
      let (t', gx) = step t server_unreachable cfg in
      let v' = perform_all gx (expired server_unreachable v) in
      (t'.state ≡ authenticated) × (v'.posture ≡ w.posture) × (v'.timers.session_timeout ≡ false)
unfolding step
session_timeout_lost s w cfg h c k = ground arith

-- If a CoA authorization reaches an open session while it waits for the server, and the server is
-- then unreachable, the session is authenticated again with the authorization it had, and the port
-- shows the posture it had: the change that the CoA asked for is lost.
pub coa_authorize_lost :
    (s : PortSession) (w : World) (a : Authorization) (cfg : PaeConfig)
    → Consistent s w
    → s.state ≡ auth_server
    → s.accounting_open ≡ true
    → let (t, fx) = step s (coa_authorize a) cfg in
      let v = perform_all fx (expired (coa_authorize a) w) in
      let (t', gx) = step t server_unreachable cfg in
      let v' = perform_all gx (expired server_unreachable v) in
      (t'.state ≡ authenticated) × (t'.authz ≡ s.authz) × (v'.posture ≡ w.posture)
unfolding step
coa_authorize_lost s w a cfg h c k = ground arith
