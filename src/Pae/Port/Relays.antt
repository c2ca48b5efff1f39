-- ===== src/Pae/Port/Relays.antt =====
-- crates/pae/src/port.rs: how often one event asks the server.
use usg_authenticator.Prelude.{ℕ, ◌≤◌, ◌≡◌, List, Bool, true, false, arith, if◌then◌else◌}
use usg_authenticator.Pacp.Ethernet.{MacAddr}
use usg_authenticator.Pae.Config.{PaeConfig}
use usg_authenticator.Pae.Effect.{Effect, to_auth_server, start_mab}
use usg_authenticator.Pae.Event.{
  Event, enable, link_down, access_challenge, access_accept, access_reject, coa_disconnect,
  coa_reauthenticate, coa_authorize,
}
use usg_authenticator.Pae.Session.{
  State, new, connecting, auth_server, authenticating, authenticated, held, in_fallback,
  PortSession,
}
use usg_authenticator.Pae.Port.Counts.{count, directed_count, handle-count}
use usg_authenticator.Pae.Step.{step, by_state}
use usg_authenticator.Pae.Port.{PortPae, DirectedEffect, handle}

-- An effect that asks the server, and an event that is its answer.
abbrev pub is_relay : Effect → Bool
is_relay (to_auth_server _) = true
is_relay (start_mab _) = true
is_relay _ = false

abbrev pub is_answer : Event → Bool
is_answer (access_challenge _) = true
is_answer (access_accept _ _) = true
is_answer (access_reject _) = true
is_answer _ = false

abbrev relays : List Effect → ℕ
relays = count is_relay

abbrev pub directed_relays : List DirectedEffect → ℕ
directed_relays = directed_count is_relay

abbrev pub room : Event → ℕ
room e = if is_answer e then 0 else 1

by_state-relays :
    (t : State) (s : PortSession) (e : Event) (cfg : PaeConfig)
    → relays (by_state t s e cfg).1 ≤ room e
unfolding by_state
by_state-relays connecting s e cfg = ground arith
by_state-relays auth_server s e cfg = ground arith
by_state-relays authenticating s e cfg = ground arith
by_state-relays authenticated s e cfg = ground arith
by_state-relays held s e cfg = ground arith
by_state-relays (in_fallback r) s e cfg = ground arith
by_state-relays new s e cfg = ground arith

-- One event asks the server once at most, and an answer of the server never.
step-relays : (s : PortSession) (e : Event) (cfg : PaeConfig) → relays (step s e cfg).1 ≤ room e
unfolding step
step-relays s link_down cfg = ground arith
step-relays s coa_disconnect cfg = ground arith
step-relays s (coa_authorize a) cfg = ground arith
step-relays s coa_reauthenticate cfg = ground arith
step-relays s enable cfg = ground arith
step-relays s e cfg = by_state-relays s.state s e cfg

enable-relays : (s : PortSession) (cfg : PaeConfig) → relays (step s enable cfg).1 ≡ 0
unfolding step
enable-relays s cfg = ground arith

-- An event that the port handles asks the server once at most, and an answer of the server never.
pub handle-relays :
    (p : PortPae) (mac : MacAddr) (e : Event) → directed_relays (handle p mac e).1 ≤ room e
handle-relays = handle-count is_relay room step-relays enable-relays
