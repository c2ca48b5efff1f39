-- ===== src/Authd/Worker/Run.antt =====
-- crates/authd/src/worker.rs: `run_port` and the adapters that it binds the orchestrator to. What
-- arrives, in the order in which `select!` takes it, is a list; when it is used up, the loop still
-- waits.
pub mod Fold
pub mod Running
pub mod OnSonic
pub mod AcctIds
pub mod OnScheduler
pub mod Watched
pub mod Enforced
use usg_authenticator.Prelude.{ℕ, List, [], ◌∷◌, Option, none, some, Text, Result, ok, err, map_err}
use usg_authenticator.Pacp.Ethernet.{MacAddr}
use usg_authenticator.Pacp.Error.{PacpError}
use usg_authenticator.Pae.Config.{PaeConfig, TimerKind, Timers}
use usg_authenticator.Pae.Effect.{PortAuthorization}
use usg_authenticator.Pae.Event.{Event}
use usg_authenticator.Pae.Port.{PortPae, enable_port}
use usg_authenticator.Enforce.{Target}
use usg_authenticator.Radius.Proto.{Packet, RadiusProto}
use usg_authenticator.Radius.Context.{RequestContext}
use usg_authenticator.Authd.Error.{AuthdError, rad_sec, eapol, enforce, frame}
use usg_authenticator.Authd.Deps.{Deps}
use usg_authenticator.Authd.Dispatch.{St, Err, new_orchestrator}
use usg_authenticator.Authd.Loop.{apply_effects, handle_event}
use usg_authenticator.Authd.Worker.{supplicant_frame, frame_event}

-- The socket, the connection, the enforcer and the timers of a port, on a world that they share.
-- `ensure_eapol_trap` and `enforce` give the text of their error.
pub record Boundary : Type 1 where
  pub World : Type 0
  pub Failure : Type 0
  pub open_socket : Text → World → World × Result Failure (Unit {0})
  pub send : List ℕ → World → World × Result Failure (Unit {0})
  pub request : Packet → World → World × Result Failure Packet
  pub ensure_eapol_trap : Text → World → World × Result Text (Unit {0})
  pub apply : Text → Target → PortAuthorization → World → World × Result Text (Unit {0})
  pub arm : MacAddr → TimerKind → ℕ → World → World
  pub cancel : MacAddr → TimerKind → World → World
  pub cancel_all : MacAddr → World → World
  pub generate_request_authenticator : World → World × List ℕ

pub record PortSetup : Type 0 where
  pub port : Text
  pub switch_mac : MacAddr
  pub pae_cfg : PaeConfig
  pub timers : Timers
  pub secret : List ℕ
  pub ctx_template : RequestContext

-- A frame or an error of the socket, or an event of a timer.
pub data Input (F : Type 0) : Type 0 where
  received : Result F (List ℕ) → Input F
  expired : MacAddr → Event → Input F

module _ (P : RadiusProto) (B : Boundary) where
  abbrev Outcome : Type 0 → Type 0
  Outcome A = B.World × Result (AuthdError P.PacketError B.Failure) A

  -- `EapolSupplicant::send_eap`
  abbrev send_framed : Result PacpError (List ℕ) → B.World → Outcome (Unit {0})
  send_framed (ok bytes) w = let (w', r) = B.send bytes w in (w', map_err eapol r)
  send_framed (err e) w = (w, err (frame e))

  unfoldable pub send_eap : MacAddr → MacAddr → List ℕ → B.World → Outcome (Unit {0})
  send_eap src mac eap w = send_framed (supplicant_frame src mac eap) w

  -- `RadSecServer`: the reply to accounting is read and dropped.
  unfoldable pub access_request : Packet → B.World → Outcome Packet
  access_request packet w = let (w', r) = B.request packet w in (w', map_err rad_sec r)

  abbrev dropped : Outcome Packet → Outcome (Unit {0})
  dropped (w, ok reply) = (w, ok tt)
  dropped (w, err e) = (w, err e)

  unfoldable pub accounting : Packet → B.World → Outcome (Unit {0})
  accounting packet w = let (w', r) = B.request packet w in dropped (w', map_err rad_sec r)

  abbrev pub deps_of : PortSetup → Deps P
  deps_of setup = record {
    World = B.World;
    Failure = B.Failure;
    send_eap = send_eap setup.switch_mac;
    access_request = access_request;
    accounting = accounting;
    enforce = B.apply;
    arm = B.arm;
    cancel = B.cancel;
    cancel_all = B.cancel_all;
    generate_request_authenticator = B.generate_request_authenticator;
    timers = setup.timers;
    secret = setup.secret;
  }

module _ (P : RadiusProto) (D : Deps P) where
  -- The port, the orchestrator and the world, and the error that ended the loop, if one did.
  pub record Serving : Type 0 where
    pub pae : PortPae
    pub st : St P D
    pub stopped : Option (Err P D)

  abbrev pub settled : PortPae × (St P D × Result (Err P D) (Unit {0})) → Serving
  settled (p, (st, ok _)) = record { pae = p; st = st; stopped = none }
  settled (p, (st, err e)) = record { pae = p; st = st; stopped = some e }

  abbrev dispatched : PortPae → St P D → Option (MacAddr × Event) → Serving
  dispatched p st none = record { pae = p; st = st; stopped = none }
  dispatched p st (some (mac, event)) = settled (handle_event P D p mac event st)

  unfoldable pub dispatch_frame : List ℕ → PortPae → St P D → Serving
  dispatch_frame bytes p st = dispatched p st (frame_event bytes)

  -- One round of the `loop`.
  unfoldable pub serve : Input D.Failure → PortPae → St P D → Serving
  unfolding dispatch_frame
  serve (received (ok bytes)) p st = dispatch_frame bytes p st
  serve (received (err e)) p st = record { pae = p; st = st; stopped = some (eapol e) }
  serve (expired mac event) p st = settled (handle_event P D p mac event st)

  unfoldable pub serve_all : List (Input D.Failure) → Serving → Serving
  serve_all [] s = s
  serve_all (i ∷ is) s = elim s.stopped [ none ↦ serve_all is (serve i s.pae s.st) | some e ↦ s ]

module _ (P : RadiusProto) (B : Boundary) (setup : PortSetup) where
  abbrev pub PortDeps : Deps P
  PortDeps = deps_of P B setup

  -- The world, and what became of the loop, or the error that kept it from starting.
  abbrev pub Run : Type 0
  Run = B.World × Result (AuthdError P.PacketError B.Failure) (Serving P PortDeps)

  abbrev new_pae : PortPae
  new_pae = record { cfg = setup.pae_cfg; sessions = [] }

  abbrev pub first_state : B.World → St P PortDeps
  first_state w = record { orch = new_orchestrator setup.port setup.ctx_template; world = w }

  abbrev looped :
      List (Input B.Failure)
      → St P PortDeps × Result (AuthdError P.PacketError B.Failure) (Unit {0})
      → Run
  looped inputs (st, ok _) =
      let s = serve_all P PortDeps inputs (record { pae = new_pae; st = st; stopped = none }) in
      (s.st.world, ok s)
  looped inputs (st, err e) = (st.world, err e)

  abbrev opened : List (Input B.Failure) → B.World × Result B.Failure (Unit {0}) → Run
  opened inputs (w, ok _) =
      looped inputs (apply_effects P PortDeps (enable_port new_pae) (first_state w))
  opened inputs (w, err x) = (w, err (eapol x))

  abbrev trapped : List (Input B.Failure) → B.World × Result Text (Unit {0}) → Run
  trapped inputs (w, ok _) = opened inputs (B.open_socket setup.port w)
  trapped inputs (w, err x) = (w, err (enforce x))

  unfoldable pub run_port : List (Input B.Failure) → B.World → Run
  run_port inputs w = trapped inputs (B.ensure_eapol_trap setup.port w)
