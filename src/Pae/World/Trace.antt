-- ===== src/Pae/World/Trace.antt =====
-- crates/pae/src/session.rs: what holds of a session after any list of events.
use usg_authenticator.Prelude.{◌≡◌, refl, ◌∙◌, false, List, [], ◌∷◌, Bool, true, none, arith, ◌⊎◌}
use usg_authenticator.Pacp.Ethernet.{MacAddr}
use usg_authenticator.Pae.Config.{PaeConfig}
use usg_authenticator.Pae.Effect.{critical, unauthorized}
use usg_authenticator.Pae.Event.{Event, link_down, coa_disconnect}
use usg_authenticator.Pae.Session.{
  State, new, connecting, auth_server, authenticating, held, in_fallback, PortSession, new_session,
  is_some,
}
use usg_authenticator.Pae.Step.{step, run}
use usg_authenticator.Pae.World.Alternation.{
  Alternates, accountings, Alternates-append, Alternates-perform_all,
}
use usg_authenticator.Pae.World.{
  World, Timers, no_timers, closed, perform_all, expired, start_world,
}
use usg_authenticator.Pae.World.Consistent.{
  Consistent, IsAdmissible, Shows, step-Consistent, new_session-Consistent,
}

-- The session and the world, one event at a time: the timer that fires is gone when its event is
-- handled, and the effects are performed in order.
unfoldable pub live : PortSession → World → List Event → PaeConfig → PortSession × World
live s w [] cfg = (s, w)
live s w (e ∷ es) cfg = let (t, fx) = step s e cfg in live t (perform_all fx (expired e w)) es cfg

-- `enable` comes to a session that is not open.
abbrev pub AllAdmissible : PortSession → List Event → PaeConfig → Type 0
AllAdmissible s [] cfg = Unit
AllAdmissible s (e ∷ es) cfg = IsAdmissible e s × AllAdmissible (step s e cfg).0 es cfg

pub live-Consistent :
    (s : PortSession) (w : World) (es : List Event) (cfg : PaeConfig)
    → Consistent s w
    → AllAdmissible s es cfg
    → let (t, v) = live s w es cfg in Consistent t v
unfolding live
live-Consistent s w [] cfg h a = h
live-Consistent s w (e ∷ es) cfg h (now, later) =
    let (t, fx) = step s e cfg in
    live-Consistent t (perform_all fx (expired e w)) es cfg (step-Consistent s w cfg h e now) later

expired-ledger : (e : Event) (w : World) → (expired e w).ledger ≡ w.ledger
expired-ledger e w = ground arith

run-Alternates :
    (s : PortSession) (w : World) (es : List Event) (cfg : PaeConfig)
    → Consistent s w
    → AllAdmissible s es cfg
    → Alternates s.accounting_open
        (accountings (run s es cfg).1)
        (live s w es cfg).0.accounting_open
unfolding live run
run-Alternates s w [] cfg h a = refl
run-Alternates s w (e ∷ es) cfg h (now, later) =
    let (t, fx) = step s e cfg in
    let v = perform_all fx (expired e w) in
    let h' = step-Consistent s w cfg h e now in
    Alternates-append fx (run t es cfg).1 s.accounting_open t.accounting_open
      (live t v es cfg).0.accounting_open
      (Alternates-perform_all fx (expired e w) s.accounting_open t.accounting_open
        (expired-ledger e w ∙ h.accounted) h'.accounted)
      (run-Alternates t v es cfg h' later)

-- The timer that a state waits for is armed.
abbrev pub ends_wait : State → Timers → Bool
ends_wait connecting t = t.tx_period
ends_wait auth_server t = t.server_timeout
ends_wait authenticating t = t.supp_timeout
ends_wait held t = t.held
ends_wait (in_fallback critical) t = t.server_timeout
ends_wait _ t = true

module _ (mac : MacAddr) (es : List Event) (cfg : PaeConfig)
    (a : AllAdmissible (new_session mac) es cfg) where
  abbrev outcome : PortSession × World
  outcome = live (new_session mac) start_world es cfg

  consistent : Consistent outcome.0 outcome.1
  consistent = live-Consistent (new_session mac) start_world es cfg (new_session-Consistent mac) a

  -- From its creation on, after any events that never enable an open session, the accounting
  -- requests of a session alternate: the first is a start, each stop is of the start before it,
  -- each further start comes after a stop, and the last is a start exactly if the session holds an
  -- authorization; and the port shows that authorization, or no grant.
  pub live_accounts :
      Alternates false (accountings (run (new_session mac) es cfg).1) (is_some outcome.0.authz)
      × Shows outcome.0.authz outcome.1.posture
  unfolding new_session
  live_accounts = (
    rw consistent.granted
        (run-Alternates (new_session mac) start_world es cfg (new_session-Consistent mac) a),
    consistent.shown,
  )

  -- From its creation on, after any events that never enable an open session, a session that waits
  -- for the supplicant, for the server, or for the end of a hold or of a critical fallback has the
  -- timer armed that ends the wait.
  pub live_waits : ends_wait outcome.0.state outcome.1.timers ≡ true
  live_waits = ground (arith, consistent)

-- A link loss and a Disconnect-Request leave a consistent session new and without a grant, the
-- port unauthorized, accounting closed, and no timer armed unless the session was new already.
teardown_closes :
    (s : PortSession) (w : World) (e : Event) (cfg : PaeConfig)
    → Consistent s w
    → (e ≡ link_down) ⊎ (e ≡ coa_disconnect)
    → let (t, fx) = step s e cfg in
      let v = perform_all fx w in
      (t.state ≡ new)
      × (t.authz ≡ none)
      × (v.posture ≡ unauthorized)
      × (v.ledger ≡ closed)
      × ((s.state ≡ new) ⊎ (v.timers ≡ no_timers))
unfolding step
teardown_closes s w e cfg h k = ground arith
