-- ===== src/Authd/Worker/Run/Enforced.antt =====
-- crates/authd/src/worker.rs: what is enforced for the stations of a port that `run_port` serves.
use usg_authenticator.Prelude.{◌≡◌, refl, List, none, some, Option, ok, arith, All, true, false}
use usg_authenticator.Pacp.Ethernet.{MacAddr}
use usg_authenticator.Pae.Effect.{unauthorized, critical}
use usg_authenticator.Pae.Session.{
  PortSession, State, connecting, auth_server, authenticating, held, in_fallback,
}
use usg_authenticator.Pae.Port.{find, is_multi_host}
use usg_authenticator.Pae.World.{Timers}
use usg_authenticator.Pae.World.Consistent.{Shows}
use usg_authenticator.Enforce.{Target}
use usg_authenticator.Radius.Proto.{RadiusProto}
use usg_authenticator.Authd.Observed.{Station}
use usg_authenticator.Authd.Dispatch.{St}
use usg_authenticator.Authd.Loop.Performs.{seen}
use usg_authenticator.Authd.Loop.Backed.{Agrees, Backed, event-Agrees}
use usg_authenticator.Authd.Worker.Run.{Boundary, PortSetup, Input, Serving, PortDeps, run_port}
use usg_authenticator.Authd.Worker.Run.Running.{IsDriven, serve_all_both}
use usg_authenticator.Authd.Worker.Run.Watched.{Watched, observed}
use usg_authenticator.Authd.Worker.Run.Fold.{
  begun, after_open, after_close, empty-WellFormed, run_port-begun,
}

-- The timer that ends the wait of a state runs.
abbrev pub Waits : State → Timers → Type 0
Waits connecting t = t.tx_period ≡ true
Waits auth_server t = t.server_timeout ≡ true
Waits authenticating t = t.supp_timeout ≡ true
Waits held t = t.held ≡ true
Waits (in_fallback critical) t = t.server_timeout ≡ true
Waits _ t = Unit

-- What must be kept of a station, by its session if it has one.
abbrev pub Enforced : Option PortSession → Station → Type 0
Enforced none v = v.shown ≡ unauthorized
Enforced (some s) v = Shows s.authz v.shown × Waits s.state v.timers

Backed-Enforced : (found : Option PortSession) (v : Station) → Backed found v → Enforced found v
Backed-Enforced none v b = b
Backed-Enforced (some s) v (w, c, covers) = (ground (arith, c.shown), ground (arith, c.in_state))

module _ (P : RadiusProto) (B : Boundary) (setup : PortSetup) (W : Watched B) where
  abbrev view : St P (PortDeps P B setup) → MacAddr → Station
  view = seen P (PortDeps P B setup) (observed P B W setup)

  begun-Agrees :
      (w : B.World)
      → is_multi_host setup.pae_cfg.host_mode ≡ false
      → (after_close P B setup w).1 ≡ ok tt
      → Agrees (begun P B setup w).pae (view (begun P B setup w).st)
  unfolding find
  begun-Agrees w apart closed = record {
    well_formed = empty-WellFormed setup.pae_cfg;
    apart = apart;
    stations = closed_for;
  }
    where
      closed_for : (n : MacAddr) → Backed none (W.look (after_close P B setup w).0 n)
      closed_for n =
          rw (W.apply-look setup.port Target.port unauthorized (after_open P B setup w).0 n closed)
            refl

  -- On a port that is not multi-host, whose boundaries do what they document: after whatever
  -- frames and timer events were handled without an error, in whatever order, each station is
  -- enforced as its session says. With a session, the port shows it the grant that the session
  -- holds, or no grant, and the timer that ends the wait of the session was armed and not
  -- cancelled since; without one, it is unauthorized.
  pub run_port-Enforced :
      (inputs : List (Input B.Failure)) (w v : B.World) (s : Serving P (PortDeps P B setup))
      → is_multi_host setup.pae_cfg.host_mode ≡ false
      → All IsDriven inputs
      → run_port P B setup inputs w ≡ (v, ok s)
      → s.stopped ≡ none
      → (n : MacAddr) → Enforced (find n s.pae.sessions) (W.look v n)
  run_port-Enforced inputs w v s apart driven ran running n =
      let (trap, socket, closed, is, there) = run_port-begun P B setup inputs w v s ran in
      let kept : Agrees s.pae (view s.st) = rw is (
        serve_all_both P (PortDeps P B setup) (λ p st. Agrees p (view st))
          (event-Agrees P (PortDeps P B setup) (observed P B W setup)) inputs (begun P B setup w)
          driven refl (begun-Agrees w apart closed) (rw is at running)) in
      rw there (Backed-Enforced (find n s.pae.sessions) (W.look s.st.world n) (kept.stations n))
