-- ===== src/Authd/Timers.antt =====
-- crates/authd/src/timers.rs: the configured duration of a timer, in seconds.
use usg_authenticator.Prelude.{ℕ, Option, none, some}
use usg_authenticator.Pae.Config.{Timers, TimerKind}

unfoldable pub duration : Timers → TimerKind → Option ℕ
duration t TimerKind.tx_period = some t.tx_period
duration t TimerKind.held = some t.held_period
duration t TimerKind.reauth = some t.reauth_period
duration t TimerKind.server_timeout = some t.server_timeout
duration t TimerKind.supp_timeout = some t.supp_timeout
duration t TimerKind.session_timeout = none
