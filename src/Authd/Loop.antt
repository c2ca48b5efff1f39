-- ===== src/Authd/Loop.antt =====
-- crates/authd/src/dispatch.rs: one effect, all the effects of an event, and the queue of events.
pub mod Lifetime
pub mod Steps
pub mod Backed
pub mod AcctIds
pub mod Unique
pub mod Posed
pub mod Sole
pub mod Performs
pub mod BadIdentity
pub mod Bound
pub mod FailedStop
use usg_authenticator.Prelude.{
  ℕ, zero, suc, List, [], ◌∷◌, ◌++◌, Option, none, some, Text, Result, ok, err, map_err,
}
use usg_authenticator.Pacp.Ethernet.{MacAddr}
use usg_authenticator.Pae.Config.{TimerKind}
use usg_authenticator.Pae.Effect.{
  PortAuthorization, authorized, AcctTrigger, Effect, tx_eap_to_supplicant, to_auth_server,
  start_mab, set_authorization, arm_timer, cancel_timer, cancel_all_timers, accounting,
}
use usg_authenticator.Pae.Event.{Event}
use usg_authenticator.Pae.Port.{DirectedEffect, PortPae}
use usg_authenticator.Pae.Port
use usg_authenticator.Radius.Proto.{RadiusProto}
use usg_authenticator.Authd.Error.{enforce}
use usg_authenticator.Authd.Session.{next_accounting_identifier, build_accounting}
use usg_authenticator.Authd.Deps.{Deps}
use usg_authenticator.Authd.Dispatch.{
  Orchestrator, St, Err, M, return, continue, ◌>>=◌, on_world, change_world, session_of, write,
  ctx_for, acct_id_for, or_port, timer_duration, relay_eap, bypass,
}

module _ (P : RadiusProto) (D : Deps P) where
  unfoldable pub send_accounting : MacAddr → AcctTrigger → M P D (Option Event)
  send_accounting mac trigger st =
      let ctx = ctx_for st.orch mac in
      let (o, acct_id) = acct_id_for st.orch mac in
      let s = session_of o mac in
      let (r, id) = next_accounting_identifier s.radius in
      let st' = record st { orch = write o mac (record s { radius = r }) } in
      continue P D
        (λ request. ◌>>=◌ P D (on_world P D (D.accounting request)) (λ _. return P D none))
        (st', build_accounting P D.Failure ctx id trigger acct_id D.secret r)

  -- Only a grant that is directed at a station records that station's Session-Timeout.
  abbrev pub record_timeout : Option MacAddr → PortAuthorization → Orchestrator → Orchestrator
  record_timeout (some mac) (authorized a) o =
      write o mac (record (session_of o mac) { session_timeout = a.session_timeout })
  record_timeout _ _ o = o

  abbrev enforce_on : Option MacAddr → PortAuthorization → M P D (Option Event)
  enforce_on mac auth st =
      let o = record_timeout mac auth st.orch in
      let (w, r) = D.enforce o.port (or_port mac) auth st.world in
      continue P D (λ _. return P D none) (record { orch = o; world = w }, map_err enforce r)

  abbrev arm_for : MacAddr → TimerKind → Option ℕ → M P D (Option Event)
  arm_for mac kind none = return P D none
  arm_for mac kind (some dur) =
      ◌>>=◌ P D (change_world P D (D.arm mac kind dur)) (λ _. return P D none)

  -- An effect other than MAB and authorization needs a station; without one nothing is done.
  unfoldable pub perform : Option MacAddr → Effect → M P D (Option Event)
  perform (some mac) (tx_eap_to_supplicant eap) =
      ◌>>=◌ P D (on_world P D (D.send_eap mac eap)) (λ _. return P D none)
  perform (some mac) (to_auth_server eap) = relay_eap P D mac eap
  perform target (start_mab mac) = bypass P D mac
  perform target (set_authorization auth) = enforce_on target auth
  perform (some mac) (arm_timer kind) =
      λ st. arm_for mac kind (timer_duration P D st.orch mac kind) st
  perform (some mac) (cancel_timer kind) =
      ◌>>=◌ P D (change_world P D (D.cancel mac kind)) (λ _. return P D none)
  perform (some mac) cancel_all_timers =
      ◌>>=◌ P D (change_world P D (D.cancel_all mac)) (λ _. return P D none)
  perform (some mac) (accounting trigger) = send_accounting mac trigger
  perform none _ = return P D none

  abbrev pub dispatch : DirectedEffect → M P D (Option Event)
  dispatch de = perform de.mac de.effect

  abbrev or_mac : Option MacAddr → MacAddr → MacAddr
  or_mac none m = m
  or_mac (some mac) m = mac

  abbrev follow_up : Option MacAddr → MacAddr → Option Event → List (MacAddr × Event)
  follow_up target m none = []
  follow_up target m (some event) = (or_mac target m, event) ∷ []

  -- `for de in pae.handle(m, ev)`: the follow-up events are queued in order.
  unfoldable pub dispatch_all : MacAddr → List DirectedEffect → M P D (List (MacAddr × Event))
  dispatch_all m [] = return P D []
  dispatch_all m (de ∷ rest) = ◌>>=◌ P D (dispatch de) (λ follow.
      ◌>>=◌ P D (dispatch_all m rest) (λ more. return P D (follow_up de.mac m follow ++ more)))

  -- `apply_effects`: the follow-ups of port-level effects are ignored.
  unfoldable pub apply_effects : List DirectedEffect → M P D (Unit {0})
  apply_effects [] = return P D tt
  apply_effects (de ∷ rest) = ◌>>=◌ P D (dispatch de) (λ _. apply_effects rest)

  -- The `while` loop over the queue; the count of steps is the fuel, and at its end the loop breaks.
  unfoldable pub drain :
      ℕ
      → PortPae
      → List (MacAddr × Event)
      → St P D
      → PortPae × (St P D × Result (Err P D) (Unit {0}))
  drain fuel pae [] st = (pae, (st, ok tt))
  drain zero pae (e ∷ queue) st = (pae, (st, ok tt))
  drain (suc fuel) pae ((m, event) ∷ queue) st =
      let (pae', effects) = Port.handle pae m event in
      let outcome = dispatch_all m effects st in
      elim outcome.1 [
        | ok follow ↦ drain fuel pae' (queue ++ follow) outcome.0
        | err x ↦ (pae', (outcome.0, err x))
      ]

  unfoldable pub handle_event :
      PortPae → MacAddr → Event → St P D → PortPae × (St P D × Result (Err P D) (Unit {0}))
  unfolding drain
  handle_event pae mac event st = drain 64 pae ((mac, event) ∷ []) st
