-- ===== src/Authd/Observed.antt =====
-- crates/authd/src/dispatch.rs: what the boundaries keep of a station, as the documentation of
-- `Enforcer` (an authorization applies to the whole port or to one supplicant) and of `Scheduler` (one
-- timer for each station and kind) promises it.
use usg_authenticator.Prelude.{ℕ, ◌≡◌, List, Bool, true, false, Text, ok, if◌then◌else◌, arith}
use usg_authenticator.Pacp.Ethernet.{MacAddr, mac_eq}
use usg_authenticator.Pae.Config.{TimerKind}
use usg_authenticator.Pae.Effect.{PortAuthorization}
use usg_authenticator.Pae.Event.{Event}
use usg_authenticator.Pae.World.{World, Timers, no_timers, put, expired}
use usg_authenticator.Pae.World.Below.{Armed, Below}
use usg_authenticator.Enforce.{Target}
use usg_authenticator.Radius.Proto.{Packet, RadiusProto}
use usg_authenticator.Authd.Deps.{Deps}

-- What is enforced for a station, and which of its timers run.
pub record Station : Type 0 where
  pub shown : PortAuthorization
  pub timers : Timers

abbrev pub reaches : Target → MacAddr → Bool
reaches Target.port n = true
reaches (Target.mac m) n = mac_eq m n

pub record Observed (P : RadiusProto) (D : Deps P) : Type 0 where
  pub look : D.World → MacAddr → Station
  pub send_eap-look :
      (mac : MacAddr) (eap : List ℕ) (w : D.World) (n : MacAddr)
      → look (D.send_eap mac eap w).0 n ≡ look w n
  pub access_request-look :
      (q : Packet) (w : D.World) (n : MacAddr) → look (D.access_request q w).0 n ≡ look w n
  pub accounting-look :
      (q : Packet) (w : D.World) (n : MacAddr) → look (D.accounting q w).0 n ≡ look w n
  pub generate-look :
      (w : D.World) (n : MacAddr) → look (D.generate_request_authenticator w).0 n ≡ look w n
  pub enforce-look :
      (port : Text) (t : Target) (a : PortAuthorization) (w : D.World) (n : MacAddr)
      → (D.enforce port t a w).1 ≡ ok tt
      → look (D.enforce port t a w).0 n
        ≡ (if reaches t n then record (look w n) { shown = a } else look w n)
  pub arm-look :
      (mac : MacAddr) (k : TimerKind) (d : ℕ) (w : D.World) (n : MacAddr)
      → look (D.arm mac k d w) n ≡ (
          if mac_eq mac n
          then record (look w n) { timers = put k true (look w n).timers }
          else look w n)
  pub cancel-look :
      (mac : MacAddr) (k : TimerKind) (w : D.World) (n : MacAddr)
      → look (D.cancel mac k w) n ≡ (
          if mac_eq mac n
          then record (look w n) { timers = put k false (look w n).timers }
          else look w n)
  pub cancel_all-look :
      (mac : MacAddr) (w : D.World) (n : MacAddr)
      → look (D.cancel_all mac w) n
        ≡ (if mac_eq mac n then record (look w n) { timers = no_timers } else look w n)

-- What the boundaries keep of a station is what the decisions of its session ask for.
abbrev pub Covers : World → Station → Type 0
Covers w s = (s.shown ≡ w.posture) × Armed w.timers s.timers

pub Below-Covers : (v w : World) (s : Station) → Below v w → Covers w s → Covers v s
Below-Covers v w s b h = ground arith

pub expired-Covers : (e : Event) (w : World) (s : Station) → Covers w s → Covers (expired e w) s
expired-Covers e w s h = ground arith
