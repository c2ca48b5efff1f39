-- ===== src/Authd/Worker/Run/Watched.antt =====
-- crates/authd/src/worker.rs: the socket, the connection, the enforcer and the timers of a port, seen
-- by what they keep of each station, and the adapters of `run_port` over them.
use usg_authenticator.Prelude.{ℕ, ◌≡◌, List, Text, ok, true, false, if◌then◌else◌, arith}
use usg_authenticator.Pacp.Ethernet.{MacAddr, mac_eq}
use usg_authenticator.Pae.Config.{TimerKind}
use usg_authenticator.Pae.Effect.{PortAuthorization}
use usg_authenticator.Pae.World.{no_timers, put}
use usg_authenticator.Enforce.{Target}
use usg_authenticator.Radius.Proto.{Packet, RadiusProto}
use usg_authenticator.Authd.Observed.{Station, Observed, reaches}
use usg_authenticator.Authd.Worker.Run.{
  Boundary, PortSetup, PortDeps, send_eap, access_request, accounting,
}

-- Frames and requests change nothing of it, an authorization that is applied with success is what
-- its target is shown from then on, and a timer runs from when it is armed until it is cancelled.
pub record Watched (B : Boundary) : Type 0 where
  pub look : B.World → MacAddr → Station
  pub send-look :
      (bytes : List ℕ) (w : B.World) (n : MacAddr) → look (B.send bytes w).0 n ≡ look w n
  pub request-look : (q : Packet) (w : B.World) (n : MacAddr) → look (B.request q w).0 n ≡ look w n
  pub generate-look :
      (w : B.World) (n : MacAddr) → look (B.generate_request_authenticator w).0 n ≡ look w n
  pub apply-look :
      (port : Text) (t : Target) (a : PortAuthorization) (w : B.World) (n : MacAddr)
      → (B.apply port t a w).1 ≡ ok tt
      → look (B.apply port t a w).0 n
        ≡ (if reaches t n then record (look w n) { shown = a } else look w n)
  pub arm-look :
      (mac : MacAddr) (k : TimerKind) (d : ℕ) (w : B.World) (n : MacAddr)
      → look (B.arm mac k d w) n ≡ (
          if mac_eq mac n
          then record (look w n) { timers = put k true (look w n).timers }
          else look w n)
  pub cancel-look :
      (mac : MacAddr) (k : TimerKind) (w : B.World) (n : MacAddr)
      → look (B.cancel mac k w) n ≡ (
          if mac_eq mac n
          then record (look w n) { timers = put k false (look w n).timers }
          else look w n)
  pub cancel_all-look :
      (mac : MacAddr) (w : B.World) (n : MacAddr)
      → look (B.cancel_all mac w) n
        ≡ (if mac_eq mac n then record (look w n) { timers = no_timers } else look w n)

module _ (P : RadiusProto) (B : Boundary) (W : Watched B) where
  pub send_eap-same :
      (src mac : MacAddr) (eap : List ℕ) (w : B.World) (n : MacAddr)
      → W.look (send_eap P B src mac eap w).0 n ≡ W.look w n
  unfolding send_eap
  send_eap-same src mac eap w n = grind (arith, W.send-look)

  pub access_request-same :
      (q : Packet) (w : B.World) (n : MacAddr) → W.look (access_request P B q w).0 n ≡ W.look w n
  unfolding access_request
  access_request-same q w n = W.request-look q w n

  pub accounting-same :
      (q : Packet) (w : B.World) (n : MacAddr) → W.look (accounting P B q w).0 n ≡ W.look w n
  unfolding accounting
  accounting-same q w n = grind (arith, W.request-look)

  -- What the boundaries of a port document is what the orchestrator needs of its own.
  abbrev pub observed : (setup : PortSetup) → Observed P (PortDeps P B setup)
  observed setup = record {
    look = W.look;
    send_eap-look = send_eap-same setup.switch_mac;
    access_request-look = access_request-same;
    accounting-look = accounting-same;
    generate-look = W.generate-look;
    enforce-look = W.apply-look;
    arm-look = W.arm-look;
    cancel-look = W.cancel-look;
    cancel_all-look = W.cancel_all-look;
  }
