-- ===== src/Pae/Port.antt =====
-- crates/pae/src/port.rs: the sessions of one port, and how many of them its host mode admits.
pub mod LinkDown
pub mod Isolation
pub mod Counts
pub mod Relays
pub mod Accounts
pub mod WellFormed
use usg_authenticator.Prelude.{
  ℕ, suc, List, [], ◌∷◌, ◌++◌, Bool, true, false, ◌&&◌, ltb, ◌==◌, if◌then◌else◌, Option, none,
  some, map,
}
use usg_authenticator.Pacp.Ethernet.{MacAddr, mac_eq}
use usg_authenticator.Pae.Config.{
  HostMode, single_host, multi_host, multi_auth, multi_domain, PaeConfig,
}
use usg_authenticator.Pae.Effect.{Effect, set_authorization, unauthorized}
use usg_authenticator.Pae.Event.{Event, enable, eapol_start, link_down}
use usg_authenticator.Pae.Session.{PortSession, new_session, is_new, Outcome}
use usg_authenticator.Pae.Step.{step}

-- `max_sessions` of session.rs
unfoldable pub max_sessions : HostMode → Option ℕ
max_sessions single_host = some 1
max_sessions multi_host = some 1
max_sessions multi_domain = some 2
max_sessions multi_auth = none

pub record DirectedEffect : Type 0 where
  pub mac : Option MacAddr
  pub effect : Effect

pub record PortPae : Type 0 where
  pub cfg : PaeConfig
  pub sessions : List PortSession

abbrev pub PortOutcome : Type 0
PortOutcome = PortPae × List DirectedEffect

unfoldable pub new_port : PaeConfig → PortPae
new_port cfg = record { cfg = cfg; sessions = [] }

abbrev pub port_unauthorized : DirectedEffect
port_unauthorized = record { mac = none; effect = set_authorization unauthorized }

unfoldable pub enable_port : PortPae → List DirectedEffect
enable_port p = port_unauthorized ∷ []

-- `iter().find(|s| s.mac() == mac)`
unfoldable pub find : MacAddr → List PortSession → Option PortSession
find mac [] = none
find mac (s ∷ ss) = if mac_eq s.mac mac then some s else find mac ss

-- What `find` on `iter_mut` points at is overwritten in place.
unfoldable pub replace : MacAddr → PortSession → List PortSession → List PortSession
replace mac t [] = []
replace mac t (s ∷ ss) =
    let rest = replace mac t ss in if mac_eq s.mac mac then t ∷ ss else s ∷ rest

unfoldable pub active_sessions : List PortSession → ℕ
active_sessions [] = 0
active_sessions (s ∷ ss) =
    let rest = active_sessions ss in if is_new s.state then rest else suc rest

unfoldable pub prune : List PortSession → List PortSession
prune [] = []
prune (s ∷ ss) = let rest = prune ss in if is_new s.state then rest else s ∷ rest

unfoldable pub can_admit : HostMode → ℕ → Bool
can_admit multi_auth active = true
can_admit single_host active = active == 0
can_admit multi_host active = active == 0
can_admit multi_domain active = ltb active 2

abbrev pub is_multi_host : HostMode → Bool
is_multi_host multi_host = true
is_multi_host _ = false

abbrev pub is_set_authorization : Effect → Bool
is_set_authorization (set_authorization _) = true
is_set_authorization _ = false

-- In multi-host every authorization is the whole port's; all else belongs to the supplicant.
abbrev pub direct : HostMode → MacAddr → Effect → DirectedEffect
direct mode mac effect = record {
  mac = if is_multi_host mode && is_set_authorization effect then none else some mac;
  effect = effect;
}

unfoldable pub decorate : HostMode → MacAddr → List Effect → List DirectedEffect
decorate mode mac fx = map (direct mode mac) fx

abbrev solicits_already : Event → Bool
solicits_already enable = true
solicits_already eapol_start = true
solicits_already _ = false

-- A new session is enabled, and the event that brought it is applied on top.
unfoldable pub first_contact : MacAddr → Event → PaeConfig → Outcome
first_contact mac event cfg =
    let (s, fx) = step (new_session mac) enable cfg in
    if solicits_already event then (s, fx) else let (t, gx) = step s event cfg in (t, fx ++ gx)

-- `&self.sessions` with the outcome of the admitted session pushed behind them.
unfoldable pub admit : PortPae → MacAddr → Event → PortOutcome
admit p mac event =
    let (s, fx) = first_contact mac event p.cfg in
    (record p { sessions = p.sessions ++ (s ∷ []) }, decorate p.cfg.host_mode mac fx)

unfoldable pub drop_new : PortOutcome → PortOutcome
drop_new (p, fx) = (record p { sessions = prune p.sessions }, fx)

abbrev serve : PortPae → MacAddr → Event → Option PortSession → PortOutcome
serve p mac event (some s) =
    let (t, fx) = step s event p.cfg in
    (record p { sessions = replace mac t p.sessions }, decorate p.cfg.host_mode mac fx)
serve p mac event none =
    if can_admit p.cfg.host_mode (active_sessions p.sessions) then admit p mac event else (p, [])

unfoldable pub handle : PortPae → MacAddr → Event → PortOutcome
unfolding drop_new
handle p mac event = drop_new (serve p mac event (find mac p.sessions))

-- The loop of `link_down`: its effects go to each session's own MAC, in every host mode.
unfoldable pub down_all : PaeConfig → List PortSession → List PortSession × List DirectedEffect
down_all cfg [] = ([], [])
down_all cfg (s ∷ ss) =
    let (t, fx) = step s link_down cfg in
    let (ts, gx) = down_all cfg ss in
    (t ∷ ts, map (λ effect. record { mac = some s.mac; effect = effect }) fx ++ gx)

unfoldable pub link_down_port : PortPae → PortOutcome
unfolding drop_new
link_down_port p =
    let (ss, fx) = down_all p.cfg p.sessions in
    drop_new (record p { sessions = ss }, fx ++ (port_unauthorized ∷ []))
