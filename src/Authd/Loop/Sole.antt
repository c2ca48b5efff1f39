-- ===== src/Authd/Loop/Sole.antt =====
-- crates/authd/src/dispatch.rs: a port that admits one session at most, and its posture.
use usg_authenticator.Prelude.{
  ◌≡◌, ◌≢◌, refl, List, [], ◌∷◌, some, Text, ok, arith, All, true, false, Bool-cases, inl, inr,
}
use usg_authenticator.Pacp.Ethernet.{MacAddr, mac_eq}
use usg_authenticator.Pae.Config.{PaeConfig}
use usg_authenticator.Pae.Effect.{PortAuthorization, unauthorized, Effect}
use usg_authenticator.Pae.Event.{Event, enable}
use usg_authenticator.Pae.Session.{PortSession, is_new}
use usg_authenticator.Pae.Step.{step}
use usg_authenticator.Pae.Port.{
  PortPae, find, replace, prune, handle, admit, decorate, can_admit, active_sessions, first_contact,
  max_sessions,
}
use usg_authenticator.Pae.Port.WellFormed.{WellFormed, IsLive, handle-WellFormed, handle-cfg}
use usg_authenticator.Pae.World.{World, perform_all, expired, start_world}
use usg_authenticator.Pae.World.Below.{expired-Below}
use usg_authenticator.Pae.World.Consistent.{Consistent, step-Consistent}
use usg_authenticator.Radius.Proto.{RadiusProto}
use usg_authenticator.Authd.Deps.{Deps}
use usg_authenticator.Authd.Dispatch.{St}
use usg_authenticator.Authd.Loop.{dispatch_all}
use usg_authenticator.Authd.Loop.Backed.{first_contact-Consistent, proper-IsAdmissible}
use usg_authenticator.Authd.Loop.Posed.{
  PortWide, Posed, effects, effects-decorate, dispatch_all-Posed,
}

-- The posture is what the only session, which is consistent, has asked for, or closed.
abbrev pub Sole : (PortAuthorization → Type 0) → List PortSession → Type 0
Sole S [] = S unauthorized
Sole S (s ∷ []) = (w : World) × Consistent s w × S w.posture
Sole S (s ∷ t ∷ ss) = ⊥

prune-Sole :
    (S : PortAuthorization → Type 0) (t : PortSession) (w : World)
    → Consistent t w
    → S w.posture
    → Sole S (prune (t ∷ []))
unfolding prune
prune-Sole S t w c shown = elim (Bool-cases (is_new t.state)) [
  | inl gone ↦
      let closed : w.posture ≡ unauthorized = ground (arith, c.in_state) in
      rw gone (rw closed at shown)
  | inr stays ↦ rw stays (w, c, shown)
]

module _ (S S' : PortAuthorization → Type 0) (cfg : PaeConfig)
    (exclusive : max_sessions cfg.host_mode ≡ some 1) (mac : MacAddr) (e : Event)
    (ne : e ≢ enable) where
  abbrev port_of : List PortSession → PortPae
  port_of ss = record { cfg = cfg; sessions = ss }

  abbrev fx_of : List PortSession → List Effect
  fx_of ss = effects (handle (port_of ss) mac e).1

  -- The effects of the event take the one posture to the other.
  abbrev Leads : List PortSession → Type 0
  Leads ss = (w : World) → S w.posture → S' (perform_all (fx_of ss) w).posture

  has_room : (can_admit cfg.host_mode 0 ≡ true) × (can_admit cfg.host_mode 1 ≡ false)
  unfolding can_admit max_sessions
  has_room = ground arith

  handle_first :
      let (t, fx) = first_contact mac e cfg in
      handle (port_of []) mac e ≡ (port_of (prune (t ∷ [])), decorate cfg.host_mode mac fx)
  unfolding handle find admit active_sessions
  handle_first = rw (has_room.0) refl

  handle_own :
      (s : PortSession)
      → mac_eq s.mac mac ≡ true
      → let (t, fx) = step s e cfg in
        handle (port_of (s ∷ [])) mac e ≡ (port_of (prune (t ∷ [])), decorate cfg.host_mode mac fx)
  unfolding handle find replace
  handle_own s own = rw (own, own) refl

  handle_other :
      (s : PortSession)
      → IsLive s
      → mac_eq s.mac mac ≡ false
      → handle (port_of (s ∷ [])) mac e ≡ (port_of (s ∷ []), [])
  unfolding handle find active_sessions prune
  handle_other s live other = rw (other, live, has_room.1, live) refl

  -- The port's one session became `t`, with the effects `fx`.
  became-Sole :
      (ss : List PortSession) (t : PortSession) (fx : List Effect) (v w : World)
      → handle (port_of ss) mac e ≡ (port_of (prune (t ∷ [])), decorate cfg.host_mode mac fx)
      → Consistent t v
      → v.posture ≡ (perform_all fx w).posture
      → Leads ss
      → S w.posture
      → Sole S' (handle (port_of ss) mac e).0.sessions
  became-Sole ss t fx v w is c same leads shown =
      let led : S' (perform_all fx w).posture =
        rw (is, effects-decorate cfg.host_mode mac fx) at (leads w shown) in
      rw is (prune-Sole S' t v c (rw same led))

  step-posture :
      (fx : List Effect) (w : World)
      → (perform_all fx (expired e w)).posture ≡ (perform_all fx w).posture
  step-posture fx w = (expired-Below e fx w).0

  -- An event takes the posture of the only session to the posture of the only session.
  pub handle-Sole :
      (ss : List PortSession)
      → All IsLive ss
      → Leads ss
      → Sole S ss
      → Sole S' (handle (port_of ss) mac e).0.sessions
  handle-Sole [] live leads shown =
      let (v, c, below) = first_contact-Consistent mac e cfg ne in
      let (t, fx) = first_contact mac e cfg in
      became-Sole [] t fx v start_world handle_first c below.0 leads shown
  handle-Sole (s ∷ []) live leads (w, c, shown) = elim (Bool-cases (mac_eq s.mac mac)) [
    | inl own ↦
        let (t, fx) = step s e cfg in
        became-Sole (s ∷ []) t fx (perform_all fx (expired e w)) w (handle_own s own)
          (step-Consistent s w cfg c e (proper-IsAdmissible e s ne)) (step-posture fx w) leads shown
    | inr other ↦
        let led = leads w shown in
        let is = handle_other s live.0 other in rw is (w, c, rw is at led)
  ]
  handle-Sole (s ∷ t ∷ ss) live leads absent = absurd absent

module _ (P : RadiusProto) (D : Deps P) (port : Text) (E : PortWide P D port) where
  -- The port is well formed, admits one session, and its posture is that of its session.
  pub record Settled (p : PortPae) (st : St P D) : Type 0 where
    pub exclusive : max_sessions p.cfg.host_mode ≡ some 1
    pub well_formed : WellFormed p
    pub posture : Sole (Posed P D port E st) p.sessions

  -- An event whose effects all succeed.
  pub event-Settled :
      (p : PortPae) (m : MacAddr) (e : Event) (st : St P D) (q : List (MacAddr × Event))
      → e ≢ enable
      → (dispatch_all P D m (handle p m e).1 st).1 ≡ ok q
      → Settled p st
      → Settled (handle p m e).0 (dispatch_all P D m (handle p m e).1 st).0
  event-Settled p m e st q ne went h =
      let st' = (dispatch_all P D m (handle p m e).1 st).0 in
      record {
        exclusive = rw (handle-cfg p m e) h.exclusive;
        well_formed = handle-WellFormed p m e h.well_formed;
        posture =
            handle-Sole (Posed P D port E st) (Posed P D port E st') p.cfg h.exclusive m e ne
              p.sessions h.well_formed.are_live
              (λ w shown. dispatch_all-Posed P D port E m (handle p m e).1 st w q went shown)
              h.posture;
      }
