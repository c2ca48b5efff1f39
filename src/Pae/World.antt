-- ===== src/Pae/World.antt =====
-- What the daemon keeps for one session when it performs the effects in order: the posture of the
-- controlled port, the timers that are armed, and the accounting of the session.
pub mod Consistent
pub mod Alternation
pub mod Trace
pub mod Below
pub mod Authorized
use usg_authenticator.Prelude.{ℕ, List, [], ◌∷◌, Bool, true, false, Option, none, some}
use usg_authenticator.Pae.Config.{TimerKind}
use usg_authenticator.Pae.Effect.{
  PortAuthorization, unauthorized, AcctTrigger, start, stop, Effect, set_authorization, arm_timer,
  cancel_timer, cancel_all_timers, accounting, tx_eap_to_supplicant, to_auth_server, start_mab,
}
use usg_authenticator.Pae.Event.{Event, timer}

-- A Start in an open accounting session, or a Stop outside of one, is a fault.
pub data Ledger : Type 0 where
  closed opened fault : Ledger

pub record Timers : Type 0 where
  pub tx_period : Bool
  pub held : Bool
  pub reauth : Bool
  pub server_timeout : Bool
  pub supp_timeout : Bool
  pub session_timeout : Bool

abbrev pub no_timers : Timers
no_timers = record {
  tx_period = false;
  held = false;
  reauth = false;
  server_timeout = false;
  supp_timeout = false;
  session_timeout = false;
}

abbrev pub put : TimerKind → Bool → Timers → Timers
put TimerKind.tx_period b t = record t { tx_period = b }
put TimerKind.held b t = record t { held = b }
put TimerKind.reauth b t = record t { reauth = b }
put TimerKind.server_timeout b t = record t { server_timeout = b }
put TimerKind.supp_timeout b t = record t { supp_timeout = b }
put TimerKind.session_timeout b t = record t { session_timeout = b }

pub record World : Type 0 where
  pub posture : PortAuthorization
  pub timers : Timers
  pub ledger : Ledger

-- Before any effect: the port was closed at bring-up.
abbrev pub start_world : World
start_world = record { posture = unauthorized; timers = no_timers; ledger = closed }

abbrev pub account : AcctTrigger → Ledger → Ledger
account start closed = opened
account (stop _) opened = closed
account _ _ = fault

abbrev pub perform : Effect → World → World
perform (set_authorization a) w = record w { posture = a }
perform (arm_timer k) w = record w { timers = put k true w.timers }
perform (cancel_timer k) w = record w { timers = put k false w.timers }
perform cancel_all_timers w = record w { timers = no_timers }
perform (accounting t) w = record w { ledger = account t w.ledger }
perform (tx_eap_to_supplicant _) w = w
perform (to_auth_server _) w = w
perform (start_mab _) w = w

abbrev pub perform_all : List Effect → World → World
perform_all [] w = w
perform_all (e ∷ es) w = perform_all es (perform e w)

-- A timer that expires is no longer armed when its event is handled.
abbrev pub expired : Event → World → World
expired (timer k) w = record w { timers = put k false w.timers }
expired _ w = w
