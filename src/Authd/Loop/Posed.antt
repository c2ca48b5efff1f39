-- ===== src/Authd/Loop/Posed.antt =====
-- crates/authd/src/dispatch.rs: what performing the effects of an event makes of the posture of the
-- whole port, with an enforcer that has one posture for each port.
use usg_authenticator.Prelude.{ap, ℕ, ◌≡◌, refl, List, [], ◌∷◌, Option, none, some, Text, ok, arith}
use usg_authenticator.Pacp.Ethernet.{MacAddr}
use usg_authenticator.Pae.Config.{TimerKind, HostMode}
use usg_authenticator.Pae.Effect.{
  AcctTrigger, PortAuthorization, Effect, tx_eap_to_supplicant, to_auth_server, start_mab,
  set_authorization, arm_timer, cancel_timer, cancel_all_timers, accounting,
}
use usg_authenticator.Pae.Event.{Event}
use usg_authenticator.Pae.Port.{DirectedEffect, decorate}
use usg_authenticator.Pae.World.{World, perform_all}
use usg_authenticator.Enforce.{Target}
use usg_authenticator.Radius.Proto.{Packet, RadiusProto}
use usg_authenticator.Authd.Deps.{Deps}
use usg_authenticator.Authd.Timers.{duration}
use usg_authenticator.Authd.Dispatch.{St, relay_eap, bypass, acct_id_for, timer_duration}
use usg_authenticator.Authd.Loop.{perform, send_accounting, dispatch_all}
use usg_authenticator.Authd.Loop.Steps.{dispatch_all_none, dispatch_all_first}

-- `Shows w a`: in the world `w` the port has the posture `a`. Only an application for the port
-- changes it, to what is applied, whatever its target.
pub record PortWide (P : RadiusProto) (D : Deps P) (port : Text) : Type 1 where
  pub Shows : D.World → PortAuthorization → Type 0
  pub send_eap-Shows :
      (mac : MacAddr) (eap : List ℕ) (w : D.World) (a : PortAuthorization)
      → Shows w a
      → Shows (D.send_eap mac eap w).0 a
  pub access_request-Shows :
      (q : Packet) (w : D.World) (a : PortAuthorization)
      → Shows w a
      → Shows (D.access_request q w).0 a
  pub accounting-Shows :
      (q : Packet) (w : D.World) (a : PortAuthorization) → Shows w a → Shows (D.accounting q w).0 a
  pub generate-Shows :
      (w : D.World) (a : PortAuthorization)
      → Shows w a
      → Shows (D.generate_request_authenticator w).0 a
  pub enforce-Shows :
      (t : Target) (a b : PortAuthorization) (w : D.World)
      → Shows w b
      → (D.enforce port t a w).1 ≡ ok tt
      → Shows (D.enforce port t a w).0 a
  pub arm-Shows :
      (mac : MacAddr) (k : TimerKind) (d : ℕ) (w : D.World) (a : PortAuthorization)
      → Shows w a
      → Shows (D.arm mac k d w) a
  pub cancel-Shows :
      (mac : MacAddr) (k : TimerKind) (w : D.World) (a : PortAuthorization)
      → Shows w a
      → Shows (D.cancel mac k w) a
  pub cancel_all-Shows :
      (mac : MacAddr) (w : D.World) (a : PortAuthorization)
      → Shows w a
      → Shows (D.cancel_all mac w) a

abbrev pub effects : List DirectedEffect → List Effect
effects [] = []
effects (d ∷ ds) = d.effect ∷ effects ds

pub effects-decorate :
    (mode : HostMode) (mac : MacAddr) (fx : List Effect) → effects (decorate mode mac fx) ≡ fx
unfolding decorate
effects-decorate mode mac [] = refl
effects-decorate mode mac (e ∷ fx) = ap (λ es. e ∷ es) (effects-decorate mode mac fx)

module _ (P : RadiusProto) (D : Deps P) (port : Text) (E : PortWide P D port) where
  -- The orchestrator is that of the port.
  abbrev pub Posed : St P D → PortAuthorization → Type 0
  Posed st a = (st.orch.port ≡ port) × E.Shows st.world a

  relay_eap-Posed :
      (mac : MacAddr) (eap : List ℕ) (st : St P D) (a : PortAuthorization)
      → Posed st a
      → Posed (relay_eap P D mac eap st).0 a
  unfolding relay_eap
  relay_eap-Posed mac eap st a h = grind (arith, E.generate-Shows, E.access_request-Shows)

  bypass-Posed :
      (mac : MacAddr) (st : St P D) (a : PortAuthorization)
      → Posed st a
      → Posed (bypass P D mac st).0 a
  unfolding bypass
  bypass-Posed mac st a h = grind (arith, E.generate-Shows, E.access_request-Shows)

  send_accounting-Posed :
      (mac : MacAddr) (trigger : AcctTrigger) (st : St P D) (a : PortAuthorization)
      → Posed st a
      → Posed (send_accounting P D mac trigger st).0 a
  unfolding send_accounting acct_id_for
  send_accounting-Posed mac trigger st a h = grind (arith, E.accounting-Shows)

  enforce_on-Posed :
      (target : Option MacAddr) (b : PortAuthorization) (st : St P D) (a : PortAuthorization)
      (f : Option Event)
      → (perform P D target (set_authorization b) st).1 ≡ ok f
      → Posed st a
      → Posed (perform P D target (set_authorization b) st).0 b
  unfolding perform
  enforce_on-Posed target b st a f r h = grind (arith, E.enforce-Shows)

  arm-Posed :
      (mac : MacAddr) (k : TimerKind) (st : St P D) (a : PortAuthorization)
      → Posed st a
      → Posed (perform P D (some mac) (arm_timer k) st).0 a
  unfolding perform timer_duration duration
  arm-Posed mac k st a h = grind (arith, E.arm-Shows)

  -- An effect that succeeds, of whatever target.
  perform-Posed :
      (target : Option MacAddr) (e : Effect) (st : St P D) (w : World) (f : Option Event)
      → (perform P D target e st).1 ≡ ok f
      → Posed st w.posture
      → Posed (perform P D target e st).0 (perform_all (e ∷ []) w).posture
  unfolding perform
  perform-Posed target (set_authorization b) st w f r h =
      enforce_on-Posed target b st w.posture f r h
  perform-Posed (some mac) (tx_eap_to_supplicant eap) st w f r h = grind (arith, E.send_eap-Shows)
  perform-Posed (some mac) (to_auth_server eap) st w f r h = relay_eap-Posed mac eap st w.posture h
  perform-Posed (some mac) (arm_timer k) st w f r h = arm-Posed mac k st w.posture h
  perform-Posed (some mac) (cancel_timer k) st w f r h =
      (h.0, E.cancel-Shows mac k st.world w.posture h.1)
  perform-Posed (some mac) cancel_all_timers st w f r h =
      (h.0, E.cancel_all-Shows mac st.world w.posture h.1)
  perform-Posed (some mac) (accounting trigger) st w f r h =
      send_accounting-Posed mac trigger st w.posture h
  perform-Posed (some mac) (start_mab m) st w f r h = bypass-Posed m st w.posture h
  perform-Posed none (start_mab m) st w f r h = bypass-Posed m st w.posture h
  perform-Posed none e st w f r h = grind arith

  -- Where all effects succeed, the port has the posture that they ask for, whatever their targets.
  pub dispatch_all-Posed :
      (m : MacAddr) (ds : List DirectedEffect) (st : St P D) (w : World)
      (q : List (MacAddr × Event))
      → (dispatch_all P D m ds st).1 ≡ ok q
      → Posed st w.posture
      → Posed (dispatch_all P D m ds st).0 (perform_all (effects ds) w).posture
  dispatch_all-Posed m [] st w q r h = rw (dispatch_all_none P D m st) h
  dispatch_all-Posed m (d ∷ ds) st w q r h =
      let ((f, went), (more, on), same) = dispatch_all_first P D m d ds st q r in
      rw same (
        dispatch_all-Posed m ds (perform P D d.mac d.effect st).0 (perform_all (d.effect ∷ []) w)
          more on (perform-Posed d.mac d.effect st w f went h))
