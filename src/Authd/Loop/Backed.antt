-- ===== src/Authd/Loop/Backed.antt =====
-- crates/authd/src/dispatch.rs: the sessions of a port and what the boundaries keep of the stations.
use usg_authenticator.Prelude.{
  ◌≡◌, ◌≢◌, refl, List, [], Option, none, some, true, false, ok, arith, Bool-cases, Option-cases,
  inl, inr,
}
use usg_authenticator.Pacp.Ethernet.{MacAddr, mac_eq, mac_eq_iff}
use usg_authenticator.Pae.Config.{PaeConfig}
use usg_authenticator.Pae.Effect.{unauthorized, Effect}
use usg_authenticator.Pae.Event.{Event, enable, eapol_start}
use usg_authenticator.Pae.Session.{PortSession, new_session, is_new}
use usg_authenticator.Pae.Step.{step}
use usg_authenticator.Pae.Port.{
  PortPae, find, handle, decorate, is_multi_host, can_admit, active_sessions, first_contact,
}
use usg_authenticator.Pae.Port.WellFormed.{WellFormed, handle-WellFormed, handle-cfg, prune_live}
use usg_authenticator.Pae.Port.Isolation.{handle_isolates, handle_serves, handle_admits, kept}
use usg_authenticator.Pae.World.{World, perform_all, expired, start_world}
use usg_authenticator.Pae.World.Below.{Below, expired-Below, perform_all-append}
use usg_authenticator.Pae.World.Consistent.{
  Consistent, IsAdmissible, new_session-Consistent, step-Consistent,
}
use usg_authenticator.Radius.Proto.{RadiusProto}
use usg_authenticator.Authd.Deps.{Deps}
use usg_authenticator.Authd.Observed.{Station, Observed, Covers, Below-Covers, expired-Covers}
use usg_authenticator.Authd.Dispatch.{St}
use usg_authenticator.Authd.Loop.{dispatch_all}
use usg_authenticator.Authd.Loop.Performs.{seen, decorated-Covers, decorated-others}

-- What is kept of a station is what its session, which is consistent, has asked for; a station
-- without a session is unauthorized.
abbrev pub Backed : Option PortSession → Station → Type 0
Backed none v = v.shown ≡ unauthorized
Backed (some s) v = (w : World) × Consistent s w × Covers w v

-- Where the effects keep what they ask for, a session that is consistent afterwards backs it.
kept-Backed :
    (t : PortSession) (w : World) (v : Station) → Consistent t w → Covers w v → Backed (kept t) v
kept-Backed t w v c h = elim (Bool-cases (is_new t.state)) [
  | inl gone ↦ rw gone (ground (arith, c.in_state))
  | inr stays ↦ rw stays (w, c, h)
]

pub proper-IsAdmissible : (e : Event) (s : PortSession) → e ≢ enable → IsAdmissible e s
proper-IsAdmissible e s h = ground arith

fresh-IsAdmissible : (mac : MacAddr) → IsAdmissible enable (new_session mac)
unfolding new_session
fresh-IsAdmissible mac = refl

pub begun-Consistent :
    (mac : MacAddr) (cfg : PaeConfig)
    → let (s, fx) = step (new_session mac) enable cfg in Consistent s (perform_all fx start_world)
begun-Consistent mac cfg =
    step-Consistent (new_session mac) start_world cfg (new_session-Consistent mac) enable
      (fresh-IsAdmissible mac)

start_covered : (v : Station) → Backed none v → Covers start_world v
start_covered v closed = ground arith

-- After a first contact the session is consistent, with what its effects make of a closed port.
pub first_contact-Consistent :
    (mac : MacAddr) (e : Event) (cfg : PaeConfig)
    → e ≢ enable
    → let (t, fx) = first_contact mac e cfg in
      (w : World) × Consistent t w × Below w (perform_all fx start_world)
unfolding first_contact
first_contact-Consistent mac enable cfg ne = absurd (ne refl)
first_contact-Consistent mac eapol_start cfg ne =
    let first = step (new_session mac) enable cfg in
    (
      perform_all first.1 start_world,
      begun-Consistent mac cfg,
      expired-Below enable first.1 start_world,
    )
first_contact-Consistent mac e cfg ne =
    let first = step (new_session mac) enable cfg in
    let w = perform_all first.1 start_world in
    let second = step first.0 e cfg in
    (
      perform_all second.1 (expired e w),
      step-Consistent first.0 w cfg (begun-Consistent mac cfg) e (proper-IsAdmissible e first.0 ne),
      rw (perform_all-append first.1 second.1 start_world) (expired-Below e second.1 w),
    )

module _ (p : PortPae) (mac : MacAddr) (e : Event) (ne : e ≢ enable) (h : WellFormed p) where
  -- What an event makes of the station that sent it, if its effects keep what they ask for.
  abbrev Answered : Station → Station → Type 0
  Answered v v' =
      (fx : List Effect) × ((handle p mac e).1 ≡ decorate p.cfg.host_mode mac fx)
      × (((w : World) → Covers w v → Covers (perform_all fx w) v')
          → Backed (find mac (handle p mac e).0.sessions) v')

  served :
      (s : PortSession) (v v' : Station)
      → find mac p.sessions ≡ some s
      → Backed (some s) v
      → Answered v v'
  served s v v' found (w, c, covers) =
      let (same, effects) = handle_serves p mac e s h found in
      let (t, fx) = step s e p.cfg in
      (
        fx,
        effects,
        λ keep. rw same (
            kept-Backed t (perform_all fx (expired e w)) v'
              (step-Consistent s w p.cfg c e (proper-IsAdmissible e s ne))
              (keep (expired e w) (expired-Covers e w v covers))),
      )

  admitted :
      (v v' : Station)
      → find mac p.sessions ≡ none
      → can_admit p.cfg.host_mode (active_sessions p.sessions) ≡ true
      → Backed none v
      → Answered v v'
  admitted v v' absent room closed =
      let (same, effects) = handle_admits p mac e h absent room in
      let (t, fx) = first_contact mac e p.cfg in
      let (w, c, below) = first_contact-Consistent mac e p.cfg ne in
      (
        fx,
        effects,
        λ keep. rw same (
            kept-Backed t w v' c (
              Below-Covers w (perform_all fx start_world) v' below
                (keep start_world (start_covered v closed)))),
      )

  refused_event :
      find mac p.sessions ≡ none
      → can_admit p.cfg.host_mode (active_sessions p.sessions) ≡ false
      → handle p mac e ≡ (p, [])
  unfolding handle
  refused_event absent full = rw (absent, full, prune_live p.sessions h.are_live) refl

  refused :
      (v v' : Station)
      → find mac p.sessions ≡ none
      → can_admit p.cfg.host_mode (active_sessions p.sessions) ≡ false
      → Backed none v
      → Answered v v'
  unfolding decorate
  refused v v' absent full closed = ([], rw (refused_event absent full) refl, still)
    where
      still :
          ((w : World) → Covers w v → Covers w v')
          → Backed (find mac (handle p mac e).0.sessions) v'
      still keep =
          rw (refused_event absent full, absent) (keep start_world (start_covered v closed)).0

  answered : (v v' : Station) → Backed (find mac p.sessions) v → Answered v v'
  answered v v' b = elim (Option-cases (find mac p.sessions)) [
    | inr (s, found) ↦ served s v v' found (rw found at b)
    | inl absent ↦ elim (Bool-cases (can_admit p.cfg.host_mode (active_sessions p.sessions))) [
      | inl room ↦ admitted v v' absent room (rw absent at b)
      | inr full ↦ refused v v' absent full (rw absent at b)
    ]
  ]

-- The port is well formed, and each of its stations is backed.
pub record Agrees (p : PortPae) (view : MacAddr → Station) : Type 0 where
  pub well_formed : WellFormed p
  pub apart : is_multi_host p.cfg.host_mode ≡ false
  pub stations : (n : MacAddr) → Backed (find n p.sessions) (view n)

module _ (P : RadiusProto) (D : Deps P) (O : Observed P D) where
  module _ (p : PortPae) (m : MacAddr) (e : Event) (st : St P D) (q : List (MacAddr × Event))
      (ne : e ≢ enable) (went : (dispatch_all P D m (handle p m e).1 st).1 ≡ ok q)
      (a : Agrees p (seen P D O st)) where
    abbrev after_event : St P D
    after_event = (dispatch_all P D m (handle p m e).1 st).0

    answer : Answered p m e ne a.well_formed (seen P D O st m) (seen P D O after_event m)
    answer =
        answered p m e ne a.well_formed (seen P D O st m) (seen P D O after_event m) (a.stations m)

    sender-Backed : Backed (find m (handle p m e).0.sessions) (seen P D O after_event m)
    sender-Backed =
        let (fx, effects, backs) = answer in
        backs (λ w covers.
          decorated-Covers P D O p.cfg.host_mode a.apart m (handle p m e).1 fx st w q effects went
            covers)

    others-Backed :
        (n : MacAddr) → n ≢ m → Backed (find n (handle p m e).0.sessions) (seen P D O after_event n)
    others-Backed n apart =
        let (fx, effects, backs) = answer in
        let same =
          decorated-others P D O p.cfg.host_mode a.apart m (handle p m e).1 fx st n q effects went
            apart in
        rw (same, handle_isolates p m n e a.well_formed apart) (a.stations n)

    each-Backed :
        (n : MacAddr) → Backed (find n (handle p m e).0.sessions) (seen P D O after_event n)
    each-Backed n = elim (Bool-cases (mac_eq n m)) [
      | inl same ↦ rw ((mac_eq_iff n m).0 same) sender-Backed
      | inr differ ↦ others-Backed n (λ same. absurd (ground (arith, mac_eq_iff n m)))
    ]

    -- An event whose effects all succeed.
    pub event-Agrees : Agrees (handle p m e).0 (seen P D O after_event)
    event-Agrees = record {
      well_formed = handle-WellFormed p m e a.well_formed;
      apart = rw (handle-cfg p m e) a.apart;
      stations = each-Backed;
    }
