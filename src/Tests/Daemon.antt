-- ===== src/Tests/Daemon.antt =====
-- crates/authd: a daemon whose effects all succeed.
use usg_authenticator.Prelude.{
  List, ℕ, ◌+◌, ◌^◌, ◌<◌, ◌≡◌, ◌⊎◌, true, ◌≢◌, ◌↔◌, suc, refl, [], ◌∷◌, none, some, codes, ok, err,
  arith,
}
use usg_authenticator.Pacp.Ethernet.{mac_eq}
use usg_authenticator.Pacp.Eap
use usg_authenticator.Pae.Config.{TimerKind, default_config, default_timers, multi_host}
use usg_authenticator.Pae.Effect.{arm_timer}
use usg_authenticator.Pae.Event.{Event, InboundEap, eap_from_supplicant}
use usg_authenticator.Pae.Session.{PortSession, connecting, authenticated}
use usg_authenticator.Pae.Port.{PortPae, find}
use usg_authenticator.Radius.Error.{invalid_user_name}
use usg_authenticator.Radius.Sanitize.{user_name, any_refused}
use usg_authenticator.Std.Utf8.{from_utf8}
use usg_authenticator.Authd.Error.{radius, rad_sec}
use usg_authenticator.Authd.Config.{AuthdConfig, validate}
use usg_authenticator.Authd.Config.Valid.{IsValid, validate_iff}
use usg_authenticator.Authd.Deps.{Deps}
use usg_authenticator.Authd.Dispatch.{
  Err, St, new_orchestrator, eap_identity, session_of, acct_id_for,
}
use usg_authenticator.Authd.Dispatch.AcctIds.{acct_id_for-Given}
use usg_authenticator.Authd.Worker.Run.{Input, expired, Serving, serve_all}
use usg_authenticator.Authd.Worker.Run.AcctIds.{new_orchestrator-Counted, acct_id_never_changes}
use usg_authenticator.Authd.Loop.{perform, drain, handle_event}
use usg_authenticator.Authd.Loop.FailedStop.{failed_stop_not_closed}
use usg_authenticator.Authd.Loop.Bound.{handle_event_settles}
use usg_authenticator.Authd.Loop.Lifetime.{Ignorant, session_timeout_never_armed}
use usg_authenticator.Authd.Loop.BadIdentity.{bad_identity_fails}
use usg_authenticator.Tests.Sessions.{hello, station, waiting, grant}
use usg_authenticator.Tests.Replies.{codec, context}

-- The world counts the armed timers; the server sends each request back.
abbrev deps : Deps codec
deps = record {
  World = ℕ;
  Failure = Unit;
  send_eap = λ mac eap w. (w, ok tt);
  access_request = λ p w. (w, ok p);
  accounting = λ p w. (w, ok tt);
  enforce = λ port target auth w. (w, ok tt);
  arm = λ mac kind n w. suc w;
  cancel = λ mac kind w. w;
  cancel_all = λ mac w. w;
  generate_request_authenticator = λ w. (w, []);
  timers = default_timers;
  secret = [];
}

abbrev start : St codec deps
start = record { orch = new_orchestrator (codes "e1") context; world = 0 }

abbrev shared_port : PortPae
shared_port = record {
  cfg = record default_config { host_mode = multi_host };
  sessions = waiting ∷ [];
}

start-Ignorant : Ignorant codec deps start
unfolding new_orchestrator
start-Ignorant = tt

session_timeout_never_armed_example :
    let after =
      (handle_event codec deps shared_port station (Event.access_accept grant none) start).1.0 in
    Ignorant codec deps after
    × (perform codec deps (some station) (arm_timer TimerKind.session_timeout) after
        ≡ (after, ok none))
session_timeout_never_armed_example =
    session_timeout_never_armed codec deps shared_port station station
      (Event.access_accept grant none) start refl start-Ignorant

-- An identity of one line feed.
abbrev line_feed : InboundEap
line_feed = record {
  code = Eap.response;
  identifier = 1;
  eap_type = some Eap.identity_type;
  packet = 2 ∷ 1 ∷ 0 ∷ 6 ∷ 1 ∷ 10 ∷ [];
}

abbrev soliciting : PortPae
soliciting = record { cfg = default_config; sessions = record waiting { state = connecting } ∷ [] }

named : eap_identity line_feed.packet ≡ some (10 ∷ [])
unfolding eap_identity Eap.decode Eap.identity Eap.code_from_u8 Eap.type_from_u8
named = refl

refused : user_name {E = Unit {0}} (10 ∷ []) ≡ err invalid_user_name
unfolding user_name from_utf8 any_refused
refused = refl

given : line_feed.packet ≢ []
given h = ground arith

found : find station soliciting.sessions ≡ some (record waiting { state = connecting })
unfolding find mac_eq
found = refl

bad_identity_fails_example :
    (handle_event codec deps soliciting station (eap_from_supplicant line_feed) start).1.1
    ≡ err (radius invalid_user_name)
bad_identity_fails_example =
    bad_identity_fails codec deps line_feed (10 ∷ []) named refused given soliciting station
      (record waiting { state = connecting }) start found refl refl

abbrev config : AuthdConfig
config = record {
  radius = record {
    server_addr = codes "r:2083";
    server_name = codes "r";
    ca_pem = 1 ∷ [];
    client_cert_pem = 1 ∷ [];
    client_key_pem = 1 ∷ [];
  };
  ports = record { name = codes "e1"; pae = default_config } ∷ [];
  io_timeout_secs = 30;
}

validate_iff_example : (validate config ≡ ok tt) ↔ IsValid config
validate_iff_example = validate_iff config

handle_event_settles_example :
    drain codec deps 5 soliciting ((station, eap_from_supplicant line_feed) ∷ []) start
    ≡ handle_event codec deps soliciting station (eap_from_supplicant line_feed) start
handle_event_settles_example =
    handle_event_settles codec deps 5 soliciting station (eap_from_supplicant line_feed) start
      (omega arith)

-- The server cannot be reached when an open session logs off.
abbrev out_of_reach : Deps codec
out_of_reach = record deps { accounting = λ p w. (suc w, err (rad_sec tt)) }

abbrev logged_on : PortSession
logged_on = record waiting { state = authenticated; authz = some grant; accounting_open = true }

abbrev open_port : PortPae
open_port = record { cfg = default_config; sessions = logged_on ∷ [] }

abbrev before : St codec out_of_reach
before = record { orch = new_orchestrator (codes "e1") context; world = 0 }

logged_on_found : find station open_port.sessions ≡ some logged_on
unfolding find mac_eq
logged_on_found = refl

failed_stop_not_closed_example :
    let r = (handle_event codec out_of_reach open_port station Event.eapol_logoff before).1 in
    ((e : Err codec out_of_reach) × (r.1 ≡ err e)) × ((r.0.world ≡ 0) ⊎ (r.0.world ≡ 1))
failed_stop_not_closed_example =
    failed_stop_not_closed codec out_of_reach before 1 (rad_sec tt) (λ q. refl) open_port station
      logged_on logged_on_found refl refl

-- The session of the station is open, and it ends and starts again.
abbrev accounted : Serving codec deps
accounted = record {
  pae = open_port;
  st = record { orch = (acct_id_for start.orch station).0; world = 0 };
  stopped = none;
}

abbrev again : List (Input Unit)
again =
    expired station Event.eapol_logoff
    ∷ expired station (eap_from_supplicant hello)
    ∷ expired station (Event.access_accept grant none)
    ∷ []

room : start.orch.acct_counter + 1 < 2 ^ 64
unfolding new_orchestrator
room = omega arith

acct_id_never_changes_example :
    (session_of (serve_all codec deps again accounted).st.orch station).acct_id
    ≡ some (acct_id_for start.orch station).1
acct_id_never_changes_example =
    acct_id_never_changes codec deps again accounted station (acct_id_for start.orch station).1
      (acct_id_for-Given start.orch station room
        (new_orchestrator-Counted (codes "e1") context).0).1
