-- ===== src/Pae/Port/LinkDown.antt =====
-- crates/pae/src/port.rs: a lost link ends every session of the port.
use usg_authenticator.Prelude.{
  ℕ, suc, ◌+◌, ◌≡◌, refl, List, [], ◌∷◌, ◌++◌, false, arith, All, if◌then◌else◌,
}
use usg_authenticator.Pae.Config.{PaeConfig}
use usg_authenticator.Pae.Effect.{accounting, stop, port_link_down}
use usg_authenticator.Pae.Session.{PortSession, is_new}
use usg_authenticator.Pae.Step.{step}
use usg_authenticator.Pae.Port.{
  PortPae, DirectedEffect, prune, down_all, link_down_port, port_unauthorized,
}

-- The Accounting-Stops with the cause of a lost link.
abbrev pub stops : List DirectedEffect → ℕ
stops [] = 0
stops (d ∷ ds) = elim d.effect [ accounting (stop port_link_down) ↦ suc (stops ds) | _ ↦ stops ds ]

abbrev pub open_sessions : List PortSession → ℕ
open_sessions [] = 0
open_sessions (s ∷ ss) = if s.accounting_open then suc (open_sessions ss) else open_sessions ss

stops-append : (xs ys : List DirectedEffect) → stops (xs ++ ys) ≡ stops xs + stops ys
stops-append [] ys = omega arith
stops-append (d ∷ xs) ys = ground (arith, stops-append xs ys)

-- Only a session that was never enabled has nothing to stop.
abbrev pub Enabled : PortSession → Type 0
Enabled s = is_new s.state ≡ false

down_all-stops :
    (cfg : PaeConfig) (ss : List PortSession)
    → All Enabled ss
    → stops (down_all cfg ss).1 ≡ open_sessions ss
unfolding down_all step
down_all-stops cfg [] h = refl
down_all-stops cfg (s ∷ ss) h = ground (arith, down_all-stops cfg ss)

prune-down_all : (cfg : PaeConfig) (ss : List PortSession) → prune (down_all cfg ss).0 ≡ []
unfolding prune down_all step
prune-down_all cfg [] = refl
prune-down_all cfg (s ∷ ss) = ground (arith, prune-down_all cfg ss)

-- After a lost link a port of enabled sessions has none left, has sent one Accounting-Stop for
-- each that was open, and its last effect is that the whole port is unauthorized.
link_down_port_clears :
    (p : PortPae)
    → All Enabled p.sessions
    → let (q, fx) = link_down_port p in
      (q.sessions ≡ [])
      × (stops fx ≡ open_sessions p.sessions)
      × ((before : List DirectedEffect) × (fx ≡ before ++ (port_unauthorized ∷ [])))
unfolding link_down_port
link_down_port_clears p h = (
  prune-down_all p.cfg p.sessions,
  ground (
    arith,
    stops-append (down_all p.cfg p.sessions).1 (port_unauthorized ∷ []),
    down_all-stops p.cfg p.sessions,
  ),
  ((down_all p.cfg p.sessions).1, refl),
)
