-- ===== src/Authd/Dispatch.antt =====
-- crates/authd/src/dispatch.rs: the orchestrator, which performs the effects of the state machine and
-- feeds the server's replies back to it.
pub mod AcctIds
use usg_authenticator.Prelude.{
  ℕ, ◌+◌, ◌%◌, ◌^◌, List, [], ◌∷◌, ◌++◌, if◌then◌else◌, Option, none, some, Text, Result, ok, err,
}
use usg_authenticator.Std.Decimal.{decimal}
use usg_authenticator.Pacp.Ethernet.{MacAddr, mac_eq, format_mac}
use usg_authenticator.Pacp.Eap
use usg_authenticator.Pae.Config.{TimerKind}
use usg_authenticator.Pae.Event.{Event}
use usg_authenticator.Enforce.{Target}
use usg_authenticator.Radius.Proto.{Packet, RadiusProto}
use usg_authenticator.Radius.Context.{RequestContext}
use usg_authenticator.Authd.Error.{AuthdError}
use usg_authenticator.Authd.Timers.{duration}
use usg_authenticator.Authd.Session.{
  RadiusSession, fresh, build_eap_request, build_mab_request, handle_reply,
}
use usg_authenticator.Authd.Deps.{Deps}

pub record SessionState : Type 0 where
  pub radius : RadiusSession
  pub session_timeout : Option ℕ
  pub acct_id : Option Text

abbrev pub default_session : SessionState
default_session = record { radius = fresh; session_timeout = none; acct_id = none }

abbrev pub Sessions : Type 0
Sessions = List (MacAddr × SessionState)

pub record Orchestrator : Type 0 where
  pub port : Text
  pub ctx_template : RequestContext
  pub sessions : Sessions
  pub acct_counter : ℕ

unfoldable pub new_orchestrator : Text → RequestContext → Orchestrator
new_orchestrator port ctx = record {
  port = port;
  ctx_template = ctx;
  sessions = [];
  acct_counter = 0;
}

unfoldable pub get : MacAddr → Sessions → Option SessionState
get mac [] = none
get mac ((m, s) ∷ rest) = if mac_eq m mac then some s else get mac rest

unfoldable pub put : MacAddr → SessionState → Sessions → Sessions
put mac t [] = (mac, t) ∷ []
put mac t ((m, s) ∷ rest) =
    let more = put mac t rest in if mac_eq m mac then (m, t) ∷ rest else (m, s) ∷ more

abbrev pub or_default : Option SessionState → SessionState
or_default none = default_session
or_default (some s) = s

unfoldable pub ctx_for : Orchestrator → MacAddr → RequestContext
ctx_for o mac = record o.ctx_template { calling_station = mac }

-- `self.session(mac)`, written back.
abbrev pub write : Orchestrator → MacAddr → SessionState → Orchestrator
write o mac s = record o { sessions = put mac s o.sessions }

abbrev pub session_of : Orchestrator → MacAddr → SessionState
session_of o mac = or_default (get mac o.sessions)

abbrev new_acct_id : Orchestrator → MacAddr → Orchestrator × Text
new_acct_id o mac =
    let n = (o.acct_counter + 1) % 2 ^ 64 in
    let id = o.port ++ (b'-' ∷ (format_mac mac ++ (b'-' ∷ decimal n))) in
    (
      write (record o { acct_counter = n }) mac (record (session_of o mac) { acct_id = some id }),
      id,
    )

unfoldable pub acct_id_for : Orchestrator → MacAddr → Orchestrator × Text
acct_id_for o mac = elim (session_of o mac).acct_id [
  | some existing ↦ (o, existing)
  | none ↦ new_acct_id o mac
]

abbrev identity_of : {E : Type 0} → Result E Eap.EapPacket → Option (List ℕ)
identity_of (ok p) = Eap.identity p
identity_of (err _) = none

-- A packet that does not decode names no identity.
unfoldable pub eap_identity : List ℕ → Option (List ℕ)
eap_identity eap = identity_of (Eap.decode eap)

abbrev pub or_port : Option MacAddr → Target
or_port none = Target.port
or_port (some mac) = Target.mac mac

module _ (P : RadiusProto) (D : Deps P) where
  abbrev pub Err : Type 0
  Err = AuthdError P.PacketError D.Failure

  pub record St : Type 0 where
    pub orch : Orchestrator
    pub world : D.World

  abbrev pub M {ℓ} : Type ℓ → Type ℓ
  M A = St → St × Result Err A

  abbrev pub return {ℓ} : {A : Type ℓ} → A → M A
  return a st = (st, ok a)

  abbrev pub continue {ℓ κ} :
      {A : Type ℓ} {B : Type κ} → (A → M B) → St × Result Err A → St × Result Err B
  continue f (st, ok a) = f a st
  continue f (st, err e) = (st, err e)

  infixl 5 ◌>>=◌
  abbrev pub ◌>>=◌ {ℓ κ} : {A : Type ℓ} {B : Type κ} → M A → (A → M B) → M B
  ◌>>=◌ m f st = continue f (m st)

  abbrev pub on_world {ℓ} : {A : Type ℓ} → (D.World → D.World × Result Err A) → M A
  on_world act st = let (w, r) = act st.world in (record st { world = w }, r)

  abbrev pub change_world : (D.World → D.World) → M (Unit {0})
  change_world act st = (record st { world = act st.world }, ok tt)

  -- A method of the session's RADIUS state.
  abbrev pub on_radius {ℓ} :
      {A : Type ℓ} → MacAddr → (RadiusSession → RadiusSession × Result Err A) → M A
  on_radius mac act st =
      let s = session_of st.orch mac in
      let (r, result) = act s.radius in
      (record st { orch = write st.orch mac (record s { radius = r }) }, result)

  abbrev new_authenticator : M (List ℕ)
  new_authenticator st =
      let (w, a) = D.generate_request_authenticator st.world in (record st { world = w }, ok a)

  unfoldable pub timer_duration : Orchestrator → MacAddr → TimerKind → Option ℕ
  unfolding duration
  timer_duration o mac kind = elim (duration D.timers kind) [
    | some d ↦ some d
    | none ↦ (session_of o mac).session_timeout
  ]

  abbrev exchange : MacAddr → Packet → M (Option Event)
  exchange mac request = do
    reply ← on_world (D.access_request request)
    event ← on_radius mac (handle_reply P D.Failure reply D.secret)
    return (some event)

  unfoldable pub relay_eap : MacAddr → List ℕ → M (Option Event)
  relay_eap mac eap st =
      (do
        auth ← new_authenticator
        request ← on_radius mac (
            build_eap_request P D.Failure (ctx_for st.orch mac) (eap_identity eap) eap auth
              D.secret)
        exchange mac request)
        st

  unfoldable pub bypass : MacAddr → M (Option Event)
  bypass mac st =
      (do
        auth ← new_authenticator
        request ← on_radius mac (build_mab_request P D.Failure (ctx_for st.orch mac) auth D.secret)
        exchange mac request)
        st
