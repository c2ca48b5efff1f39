-- ===== src/Pae/Port/Accounts.antt =====
-- crates/pae/src/port.rs: how many accounting requests one event leads to.
use usg_authenticator.Prelude.{ℕ, ◌≤◌, ◌≡◌, List, Bool, true, false, arith}
use usg_authenticator.Pacp.Ethernet.{MacAddr}
use usg_authenticator.Pae.Config.{PaeConfig}
use usg_authenticator.Pae.Effect.{Effect, accounting}
use usg_authenticator.Pae.Event.{
  Event, enable, link_down, coa_disconnect, coa_reauthenticate, coa_authorize,
}
use usg_authenticator.Pae.Session.{
  State, new, connecting, auth_server, authenticating, authenticated, held, in_fallback,
  PortSession,
}
use usg_authenticator.Pae.Port.Counts.{count, directed_count, handle-count}
use usg_authenticator.Pae.Step.{step, by_state}
use usg_authenticator.Pae.Port.{PortPae, DirectedEffect, handle}

abbrev pub is_accounting : Effect → Bool
is_accounting (accounting _) = true
is_accounting _ = false

abbrev accounts : List Effect → ℕ
accounts = count is_accounting

abbrev pub directed_accounts : List DirectedEffect → ℕ
directed_accounts = directed_count is_accounting

by_state-accounts :
    (t : State) (s : PortSession) (e : Event) (cfg : PaeConfig)
    → accounts (by_state t s e cfg).1 ≤ 1
unfolding by_state
by_state-accounts connecting s e cfg = ground arith
by_state-accounts auth_server s e cfg = ground arith
by_state-accounts authenticating s e cfg = ground arith
by_state-accounts authenticated s e cfg = ground arith
by_state-accounts held s e cfg = ground arith
by_state-accounts (in_fallback r) s e cfg = ground arith
by_state-accounts new s e cfg = ground arith

step-accounts : (s : PortSession) (e : Event) (cfg : PaeConfig) → accounts (step s e cfg).1 ≤ 1
unfolding step
step-accounts s link_down cfg = ground arith
step-accounts s coa_disconnect cfg = ground arith
step-accounts s (coa_authorize a) cfg = ground arith
step-accounts s coa_reauthenticate cfg = ground arith
step-accounts s enable cfg = ground arith
step-accounts s e cfg = by_state-accounts s.state s e cfg

enable-accounts : (s : PortSession) (cfg : PaeConfig) → accounts (step s enable cfg).1 ≡ 0
unfolding step
enable-accounts s cfg = ground arith

-- An event that the port handles starts or stops the accounting of one session at most.
pub handle-accounts :
    (p : PortPae) (mac : MacAddr) (e : Event) → directed_accounts (handle p mac e).1 ≤ 1
handle-accounts = handle-count is_accounting (λ e. 1) step-accounts enable-accounts
