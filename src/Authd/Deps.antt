-- ===== src/Authd/Deps.antt =====
-- The boundary traits of crates/authd/src/dispatch.rs (`SupplicantLink`, `AuthServer`, `Scheduler`) and
-- the `Enforcer` of crates/enforce, over a world that their implementations act on.
use usg_authenticator.Prelude.{ℕ, List, Text, Result}
use usg_authenticator.Pacp.Ethernet.{MacAddr}
use usg_authenticator.Pae.Config.{Timers, TimerKind}
use usg_authenticator.Pae.Effect.{PortAuthorization}
use usg_authenticator.Enforce.{Target}
use usg_authenticator.Radius.Proto.{Packet, RadiusProto}
use usg_authenticator.Authd.Error.{AuthdError}

pub record Deps (P : RadiusProto) : Type 1 where
  pub World : Type 0
  pub Failure : Type 0
  pub send_eap :
      MacAddr → List ℕ → World → World × Result (AuthdError P.PacketError Failure) (Unit {0})
  pub access_request : Packet → World → World × Result (AuthdError P.PacketError Failure) Packet
  pub accounting : Packet → World → World × Result (AuthdError P.PacketError Failure) (Unit {0})
  pub enforce : Text → Target → PortAuthorization → World → World × Result Text (Unit {0})
  pub arm : MacAddr → TimerKind → ℕ → World → World
  pub cancel : MacAddr → TimerKind → World → World
  pub cancel_all : MacAddr → World → World
  pub generate_request_authenticator : World → World × List ℕ
  pub timers : Timers
  pub secret : List ℕ
