-- ===== src/Pae/Port/Isolation.antt =====
-- crates/pae/src/port.rs: whom an event reaches, and whom it leaves alone.
use usg_authenticator.Prelude.{
  true, suc, ◌≡◌, ◌≢◌, refl, ap, ◌∙◌, List, [], ◌∷◌, ◌++◌, Option, none, some, arith, All, length,
  Bool-cases, Option-cases, inl, inr, ◌&&◌, if◌then◌else◌,
}
use usg_authenticator.Pacp.Ethernet.{MacAddr, mac_eq, mac_eq_iff}
use usg_authenticator.Pae.Config.{HostMode}
use usg_authenticator.Pae.Effect.{Effect}
use usg_authenticator.Pae.Event.{Event}
use usg_authenticator.Pae.Session.{PortSession, is_new}
use usg_authenticator.Pae.Step.{step}
use usg_authenticator.Pae.Port.{
  PortPae, find, replace, prune, active_sessions, can_admit, max_sessions, first_contact, admit,
  handle, decorate, is_multi_host, is_set_authorization,
}
use usg_authenticator.Pae.Port.WellFormed.{
  IsLive, Absent, macs, Within, Distinct, WellFormed, find-mac, step-mac, first_contact-mac,
  prune_live, active_sessions_live, can_admit-Within,
}

module _ (m mac : MacAddr) (t : PortSession) (same : t.mac ≡ mac) (ne : m ≢ mac) where
  find-replace_ne :
      (ss : List PortSession) → All IsLive ss → find m (prune (replace mac t ss)) ≡ find m ss
  unfolding find replace prune
  find-replace_ne [] h = refl
  find-replace_ne (s ∷ ss) h = ground (
    arith,
    mac_eq_iff s.mac mac,
    mac_eq_iff s.mac m,
    mac_eq_iff t.mac m,
    prune_live ss,
    find-replace_ne ss,
  )

  find-append_ne :
      (ss : List PortSession) → All IsLive ss → find m (prune (ss ++ (t ∷ []))) ≡ find m ss
  unfolding find prune
  find-append_ne [] h = ground (arith, mac_eq_iff t.mac m)
  find-append_ne (s ∷ ss) h = ground (arith, mac_eq_iff s.mac m, find-append_ne ss)

-- On a well-formed port, what a station sends changes the session of no other station.
pub handle_isolates :
    (p : PortPae) (mac m : MacAddr) (e : Event)
    → WellFormed p
    → m ≢ mac
    → find m (handle p mac e).0.sessions ≡ find m p.sessions
unfolding handle admit
handle_isolates p mac m e h ne = elim (Option-cases (find mac p.sessions)) [
  | inr (s, found) ↦ rw found (
      find-replace_ne m mac (step s e p.cfg).0
        (step-mac s e p.cfg ∙ find-mac mac p.sessions s found) ne p.sessions h.are_live)
  | inl absent ↦ elim (Bool-cases (can_admit p.cfg.host_mode (active_sessions p.sessions))) [
    | inl room ↦
        rw (absent, room)
          (find-append_ne m mac (first_contact mac e p.cfg).0 (first_contact-mac mac e p.cfg) ne
            p.sessions h.are_live)
    | inr full ↦ rw (absent, full) (ap (find m) (prune_live p.sessions h.are_live))
  ]
]

Absent-find : (mac : MacAddr) (ss : List PortSession) → Absent mac (macs ss) → find mac ss ≡ none
unfolding find
Absent-find mac [] a = refl
Absent-find mac (s ∷ ss) a = ground (arith, mac_eq_iff s.mac mac, Absent-find mac ss)

-- What is found of a session once the torn down ones are dropped.
abbrev pub kept : PortSession → Option PortSession
kept t = if is_new t.state then none else some t

find-replace_self :
    (mac : MacAddr) (s t : PortSession) (ss : List PortSession)
    → t.mac ≡ mac
    → All IsLive ss
    → Distinct (macs ss)
    → find mac ss ≡ some s
    → find mac (prune (replace mac t ss)) ≡ kept t
unfolding find replace prune
find-replace_self mac s t [] same h d found = cc
find-replace_self mac s t (r ∷ ss) same h d found = elim (Bool-cases (mac_eq r.mac mac)) [
  | inl hit ↦
      let gone : find mac ss ≡ none =
        Absent-find mac ss (rw ((mac_eq_iff r.mac mac).0 hit) at d.0) in
      ground (arith, gone, prune_live ss, mac_eq_iff t.mac mac)
  | inr miss ↦ ground (arith, find-replace_self mac s t ss same)
]

-- On a well-formed port the event of a station that has a session is one step of that session: the
-- effects are its effects, and afterwards the station has the session after the step, or none if
-- the step tore it down.
pub handle_serves :
    (p : PortPae) (mac : MacAddr) (e : Event) (s : PortSession)
    → WellFormed p
    → find mac p.sessions ≡ some s
    → let (t, fx) = step s e p.cfg in
      (find mac (handle p mac e).0.sessions ≡ kept t)
      × ((handle p mac e).1 ≡ decorate p.cfg.host_mode mac fx)
unfolding handle
handle_serves p mac e s h found = (
  rw found (
      find-replace_self mac s (step s e p.cfg).0 p.sessions
        (step-mac s e p.cfg ∙ find-mac mac p.sessions s found) h.are_live h.distinct found),
  rw found,
)

find-append_self :
    (mac : MacAddr) (t : PortSession) (ss : List PortSession)
    → t.mac ≡ mac
    → All IsLive ss
    → find mac ss ≡ none
    → find mac (prune (ss ++ (t ∷ []))) ≡ kept t
unfolding find prune
find-append_self mac t [] same h absent = ground (arith, mac_eq_iff t.mac mac)
find-append_self mac t (s ∷ ss) same h absent = ground (arith, find-append_self mac t ss same)

-- On a well-formed port that has room for it, a station without a session gets one, which is
-- enabled and then takes the event, and the effects are the effects of both.
pub handle_admits :
    (p : PortPae) (mac : MacAddr) (e : Event)
    → WellFormed p
    → find mac p.sessions ≡ none
    → can_admit p.cfg.host_mode (active_sessions p.sessions) ≡ true
    → let (t, fx) = first_contact mac e p.cfg in
      (find mac (handle p mac e).0.sessions ≡ kept t)
      × ((handle p mac e).1 ≡ decorate p.cfg.host_mode mac fx)
unfolding handle admit
handle_admits p mac e h absent room = (
  rw (absent, room)
      (find-append_self mac (first_contact mac e p.cfg).0 p.sessions (first_contact-mac mac e p.cfg)
        h.are_live absent),
  rw (absent, room) refl,
)

-- A well-formed port whose host mode has no room for one more session answers a further station
-- with no effect and no change.
pub handle_denied :
    (p : PortPae) (mac : MacAddr) (e : Event)
    → WellFormed p
    → find mac p.sessions ≡ none
    → ¬ Within (max_sessions p.cfg.host_mode) (suc (length p.sessions))
    → handle p mac e ≡ (p, [])
unfolding handle
handle_denied p mac e h absent full = ground (
  arith,
  can_admit-Within p.cfg.host_mode (length p.sessions),
  active_sessions_live p.sessions h.are_live,
  prune_live p.sessions h.are_live,
)

decorate-direct :
    (mode : HostMode) (mac : MacAddr) (fx : List Effect)
    → All
        (λ d.
          d.mac ≡ (if is_multi_host mode && is_set_authorization d.effect then none else some mac))
        (decorate mode mac fx)
unfolding decorate
decorate-direct mode mac [] = tt
decorate-direct mode mac (e ∷ fx) = (refl, decorate-direct mode mac fx)

-- Every effect of an event is directed at the station that sent it, but for the authorizations of
-- a multi-host port, which are all the whole port's.
pub handle_directs :
    (p : PortPae) (mac : MacAddr) (e : Event)
    → All
        (λ d. d.mac ≡ (
          if is_multi_host p.cfg.host_mode && is_set_authorization d.effect
          then none
          else some mac))
        (handle p mac e).1
unfolding handle admit
handle_directs p mac e = elim (Option-cases (find mac p.sessions)) [
  | inr (s, found) ↦ rw found (decorate-direct p.cfg.host_mode mac (step s e p.cfg).1)
  | inl absent ↦ elim (Bool-cases (can_admit p.cfg.host_mode (active_sessions p.sessions))) [
    | inl room ↦
        rw (absent, room) (decorate-direct p.cfg.host_mode mac (first_contact mac e p.cfg).1)
    | inr full ↦ rw (absent, full) tt
  ]
]
