-- ===== src/Pae/Step/Stale.antt =====
-- crates/pae/src/session.rs: the timers that each state waits for. The event of a timer that was
-- cancelled can still be in the channel of the daemon.
use usg_authenticator.Prelude.{◌≡◌, [], Bool, true, false, arith}
use usg_authenticator.Pae.Config.{TimerKind, PaeConfig}
use usg_authenticator.Pae.Effect.{critical}
use usg_authenticator.Pae.Event.{timer}
use usg_authenticator.Pae.Session.{
  State, connecting, auth_server, authenticating, authenticated, held, in_fallback, PortSession,
}
use usg_authenticator.Pae.Step.{
  step, by_state, in_connecting, in_auth_server, in_authenticating, in_authenticated, in_held,
  in_fallback_vlan,
}

abbrev pub awaits : State → TimerKind → Bool
awaits connecting TimerKind.tx_period = true
awaits auth_server TimerKind.server_timeout = true
awaits authenticating TimerKind.supp_timeout = true
awaits authenticated TimerKind.reauth = true
awaits authenticated TimerKind.session_timeout = true
awaits held TimerKind.held = true
awaits (in_fallback critical) TimerKind.server_timeout = true
awaits _ _ = false

-- The event of a timer that the state of a session does not wait for, such as one that was
-- cancelled too late, changes nothing of the session and has no effect.
pub stale_timer_ignored :
    (s : PortSession) (k : TimerKind) (cfg : PaeConfig)
    → awaits s.state k ≡ false
    → step s (timer k) cfg ≡ (s, [])
unfolding step by_state in_connecting in_auth_server in_authenticating in_authenticated in_held
    in_fallback_vlan
stale_timer_ignored s k cfg h = ground arith
