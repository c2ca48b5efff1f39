-- ===== src/Authd/Worker/Run/OnSonic.antt =====
-- crates/authd/src/worker.rs: `run_port` with the `SonicEnforcer` of crates/enforce-sonic, down to the
-- database.
use usg_authenticator.Prelude.{
  ℕ, ◌≡◌, ◌⊎◌, refl, List, [], ◌∷◌, none, some, Text, Result, ok, map_err, arith, All, true, false,
}
use usg_authenticator.Pacp.Ethernet.{MacAddr}
use usg_authenticator.Pae.Config.{TimerKind}
use usg_authenticator.Pae.Effect.{PortAuthorization, unauthorized}
use usg_authenticator.Pae.Session.{PortSession}
use usg_authenticator.Pae.Port.{PortPae, max_sessions}
use usg_authenticator.Pae.World.Consistent.{Shows}
use usg_authenticator.Enforce.{Target}
use usg_authenticator.Sonic.Db.{DbConn}
use usg_authenticator.Sonic.Database.{is_plain, IsDatabase}
use usg_authenticator.Sonic.Schema.{
  from_authorization, closed, vlan_member_key, acl_table_key, deny_table,
}
use usg_authenticator.Sonic.Schema.View.{View, Reflects}
use usg_authenticator.Sonic.Enforcer.{SonicEnforcer, SonicError, previous}
use usg_authenticator.Sonic.Enforcer
use usg_authenticator.Sonic.Enforcer.Agrees.{Shown, apply-Shown}
use usg_authenticator.Sonic.Enforcer.Startup.{ensure_eapol_trap-wrote, ensure_eapol_trap-Shown}
use usg_authenticator.Radius.Proto.{Packet, RadiusProto}
use usg_authenticator.Authd.Dispatch.{St, new_orchestrator}
use usg_authenticator.Authd.Loop.Posed.{PortWide, Posed}
use usg_authenticator.Authd.Loop.Sole.{Sole, Settled, event-Settled}
use usg_authenticator.Authd.Worker.Run.{
  Boundary, PortSetup, Input, Serving, PortDeps, run_port, send_eap, access_request, accounting,
}
use usg_authenticator.Authd.Worker.Run.Running.{IsDriven, serve_all_both}
use usg_authenticator.Authd.Worker.Run.Fold.{
  begun, after_trap, after_open, after_close, empty-WellFormed, run_port-begun,
}

map_err_ok :
    {E : Type 0} {F : Type 0} {A : Type 0} (f : E → F) {r : Result E A} {a : A}
    → map_err f r ≡ ok a
    → r ≡ ok a
map_err_ok f {r} h = ground arith

-- The socket, the connection and the timers, which act on a world of their own.
pub record Host : Type 1 where
  pub World : Type 0
  pub Failure : Type 0
  pub open_socket : Text → World → World × Result Failure (Unit {0})
  pub send : List ℕ → World → World × Result Failure (Unit {0})
  pub request : Packet → World → World × Result Failure Packet
  pub arm : MacAddr → TimerKind → ℕ → World → World
  pub cancel : MacAddr → TimerKind → World → World
  pub cancel_all : MacAddr → World → World
  pub generate_request_authenticator : World → World × List ℕ

module _ (c : DbConn) (H : Host) (text : SonicError c.Error → Text) where
  pub record Switch : Type 0 where
    pub enforcer : SonicEnforcer c
    pub host : H.World

  abbrev on_host {ℓ} : {A : Type ℓ} → (H.World → H.World × A) → Switch → Switch × A
  on_host act w = let (h, r) = act w.host in (record w { host = h }, r)

  abbrev on_enforcer :
      (SonicEnforcer c → SonicEnforcer c × Result (SonicError c.Error) (Unit {0}))
      → Switch
      → Switch × Result Text (Unit {0})
  on_enforcer act w = let (e, r) = act w.enforcer in (record w { enforcer = e }, map_err text r)

  abbrev pub sonic_boundary : Boundary
  sonic_boundary = record {
    World = Switch;
    Failure = H.Failure;
    open_socket = λ port. on_host (H.open_socket port);
    send = λ bytes. on_host (H.send bytes);
    request = λ q. on_host (H.request q);
    ensure_eapol_trap = λ port. on_enforcer (Enforcer.ensure_eapol_trap c port);
    apply = λ port target auth. on_enforcer (Enforcer.apply c port target auth);
    arm = λ mac k d w. record w { host = H.arm mac k d w.host };
    cancel = λ mac k w. record w { host = H.cancel mac k w.host };
    cancel_all = λ mac w. record w { host = H.cancel_all mac w.host };
    generate_request_authenticator = on_host H.generate_request_authenticator;
  }

module _ (c : DbConn) (D : IsDatabase c) (H : Host) (text : SonicError c.Error → Text)
    (P : RadiusProto) (setup : PortSetup) where
  abbrev B : Boundary
  B = sonic_boundary c H text

  -- The database shows the posture, and it shows what the enforcer remembers.
  abbrev InForce : Switch c H text → PortAuthorization → Type 0
  InForce w a =
      Shown c D setup.port w.enforcer
      × Reflects setup.port (from_authorization a) (D.view w.enforcer.conn)

  send_eap-enforcer :
      (mac : MacAddr) (eap : List ℕ) (w : Switch c H text)
      → (send_eap P B setup.switch_mac mac eap w).0.enforcer ≡ w.enforcer
  unfolding send_eap
  send_eap-enforcer mac eap w = grind arith

  access_request-enforcer :
      (q : Packet) (w : Switch c H text) → (access_request P B q w).0.enforcer ≡ w.enforcer
  unfolding access_request
  access_request-enforcer q w = refl

  accounting-enforcer :
      (q : Packet) (w : Switch c H text) → (accounting P B q w).0.enforcer ≡ w.enforcer
  unfolding accounting
  accounting-enforcer q w = grind arith

  apply-InForce :
      is_plain setup.port ≡ true
      → (t : Target) (a b : PortAuthorization) (w : Switch c H text) → InForce w b
      → (B.apply setup.port t a w).1 ≡ ok tt
      → InForce (B.apply setup.port t a w).0 a
  apply-InForce plain t a b w h done =
      apply-Shown c D setup.port t a w.enforcer plain h.0 (map_err_ok text done)

  abbrev port_wide : is_plain setup.port ≡ true → PortWide P (PortDeps P B setup) setup.port
  port_wide plain = record {
    Shows = InForce;
    send_eap-Shows = λ mac eap w a h. rw (send_eap-enforcer mac eap w) h;
    access_request-Shows = λ q w a h. rw (access_request-enforcer q w) h;
    accounting-Shows = λ q w a h. rw (accounting-enforcer q w) h;
    generate-Shows = λ w a h. h;
    enforce-Shows = apply-InForce plain;
    arm-Shows = λ mac k d w a h. h;
    cancel-Shows = λ mac k w a h. h;
    cancel_all-Shows = λ mac w a h. h;
  }

  -- What the database shows of the port, by the sessions of the port.
  abbrev pub Displays : List PortSession → View → Type 0
  Displays [] v = Reflects setup.port closed v
  Displays (s ∷ []) v =
      (a : PortAuthorization) × Shows s.authz a × Reflects setup.port (from_authorization a) v
  Displays (s ∷ t ∷ ss) v = ⊥

  module _ (plain : is_plain setup.port ≡ true) (w : Switch c H text)
      (no_member : (v : Text)
        → (D.view w.enforcer.conn).present (vlan_member_key v setup.port) ≡ false)
      (no_binding : (f : Text)
        → (f ≡ deny_table setup.port)
          ⊎ ((D.view w.enforcer.conn).bound (acl_table_key f) setup.port ≡ false)) where
    abbrev Rests : PortPae → St P (PortDeps P B setup) → Type 0
    Rests = Settled P (PortDeps P B setup) setup.port (port_wide plain)

    Rests-Displays :
        (ss : List PortSession) (st : St P (PortDeps P B setup))
        → Sole (Posed P (PortDeps P B setup) setup.port (port_wide plain) st) ss
        → Displays ss (D.view st.world.enforcer.conn)
    unfolding from_authorization
    Rests-Displays [] st h = h.1.1
    Rests-Displays (s ∷ []) st (v, held, h) = (v.posture, held.shown, h.1.1)
    Rests-Displays (s ∷ t ∷ ss) st h = absurd h

    begun-InForce :
        (after_trap P B setup w).1 ≡ ok tt
        → (after_close P B setup w).1 ≡ ok tt
        → InForce (after_close P B setup w).0 unauthorized
    unfolding from_authorization
    begun-InForce trap closing =
        let trapped = map_err_ok text trap in
        let shown =
          ensure_eapol_trap-Shown c D setup.port w.enforcer plain no_member no_binding trapped in
        let remembered = (ensure_eapol_trap-wrote c D setup.port w.enforcer trapped).2 in
        apply-InForce plain Target.port unauthorized unauthorized (after_open P B setup w).0
          (shown, rw remembered at shown) closing

    begun-Rests :
        max_sessions setup.pae_cfg.host_mode ≡ some 1
        → (after_trap P B setup w).1 ≡ ok tt
        → (after_close P B setup w).1 ≡ ok tt
        → Rests (begun P B setup w).pae (begun P B setup w).st
    unfolding new_orchestrator
    begun-Rests exclusive trap closing = record {
      exclusive = exclusive;
      well_formed = empty-WellFormed setup.pae_cfg;
      posture = (refl, begun-InForce trap closing);
    }

  -- A port that admits one session, enforced by a SonicEnforcer on a database that keeps its
  -- contract, where at first the port is a member of no VLAN and bound to no ACL table but its own
  -- deny table: after whatever frames and timer events were handled without an error, in whatever
  -- order, the configuration database shows exactly the posture of the port's only session, the
  -- grant that it holds or a posture that is no grant, and the closed port if there is no session.
  pub run_port-Displays :
      (inputs : List (Input H.Failure)) (w v : Switch c H text) (s : Serving P (PortDeps P B setup))
      → max_sessions setup.pae_cfg.host_mode ≡ some 1
      → is_plain setup.port ≡ true
      → ((vlan : Text) → (D.view w.enforcer.conn).present (vlan_member_key vlan setup.port) ≡ false)
      → ((f : Text)
          → (f ≡ deny_table setup.port)
            ⊎ ((D.view w.enforcer.conn).bound (acl_table_key f) setup.port ≡ false))
      → All IsDriven inputs
      → run_port P B setup inputs w ≡ (v, ok s)
      → s.stopped ≡ none
      → Displays s.pae.sessions (D.view v.enforcer.conn)
  run_port-Displays inputs w v s exclusive plain no_member no_binding driven ran running =
      let (trap, socket, closing, is, there) = run_port-begun P B setup inputs w v s ran in
      let settled : Rests plain w no_member no_binding s.pae s.st = rw is (
        serve_all_both P (PortDeps P B setup) (Rests plain w no_member no_binding)
          (event-Settled P (PortDeps P B setup) setup.port (port_wide plain)) inputs
          (begun P B setup w) driven refl
          (begun-Rests plain w no_member no_binding exclusive trap closing) (rw is at running)) in
      rw there (Rests-Displays plain w no_member no_binding s.pae.sessions s.st settled.posture)
