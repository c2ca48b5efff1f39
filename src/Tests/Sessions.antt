-- ===== src/Tests/Sessions.antt =====
-- crates/pae: sessions that are soliciting, waiting for the server, and open.
use Prim.Native.Nat.{max}
use usg_authenticator.Prelude.{
  ◌≤◌, ◌<◌, ◌≡◌, ◌≢◌, refl, List, [], ◌∷◌, true, false, none, some, arith, codes,
}
use usg_authenticator.Pacp.Ethernet.{MacAddr}
use usg_authenticator.Pacp.Eap.{response, identity_type}
use usg_authenticator.Pae.Config.{TimerKind, default_config}
use usg_authenticator.Pae.Effect.{Authorization, authorized}
use usg_authenticator.Pae.Event.{
  Event, InboundEap, enable, eap_from_supplicant, access_accept, server_unreachable, timer,
  coa_authorize,
}
use usg_authenticator.Pae.Session.{
  PortSession, new_session, connecting, auth_server, authenticated, dot1x, is_some,
}
use usg_authenticator.Pae.Step.{step, run}
use usg_authenticator.Pae.Step.Stale.{stale_timer_ignored}
use usg_authenticator.Pae.Step.Grants.{grants, grants-step}
use usg_authenticator.Pae.Step.Retry.{silences, silences_give_up, run_bounded}
use usg_authenticator.Pae.Step.Fallback.{session_timeout_lost, coa_authorize_lost}
use usg_authenticator.Pae.World.{World, opened, no_timers, perform_all, expired, start_world}
use usg_authenticator.Pae.World.Consistent.{Consistent, Leaves, Shows, step-Consistent}
use usg_authenticator.Pae.World.Alternation.{Alternates, accountings}
use usg_authenticator.Pae.World.Trace.{live, ends_wait, live_accounts, live_waits}

abbrev pub station : MacAddr
station = record { m0 = 2; m1 = 0; m2 = 0; m3 = 0; m4 = 0; m5 = 7 }

abbrev pub grant : Authorization
grant = record {
  vlan = some (codes "20");
  filter_id = none;
  session_timeout = some 600;
  class = none;
}

-- A CoA moves the station to another VLAN.
abbrev other : Authorization
other = record grant { vlan = some (codes "30") }

abbrev pub hello : InboundEap
hello = record {
  code = response;
  identifier = 1;
  eap_type = some identity_type;
  packet = 2 ∷ 1 ∷ 0 ∷ 6 ∷ 1 ∷ 97 ∷ [];
}

-- A re-authentication: an open session that waits for the server.
abbrev pub waiting : PortSession
waiting = record {
  mac = station;
  state = auth_server;
  auth_kind = dot1x;
  eap_id = 4;
  tx_count = 1;
  authz = some grant;
  accounting_open = true;
}

abbrev opened_world : World
opened_world = record {
  posture = authorized grant;
  timers = record no_timers { server_timeout = true; session_timeout = true };
  ledger = opened;
}

waiting-Consistent : Consistent waiting opened_world
waiting-Consistent = record { granted = refl; shown = refl; accounted = refl; in_state = refl }

-- A session that is opened twice, with its lifetime ended between, and then authenticates again.
abbrev visit : List Event
visit =
    enable
    ∷ eap_from_supplicant hello
    ∷ access_accept grant none
    ∷ timer TimerKind.session_timeout
    ∷ eap_from_supplicant hello
    ∷ access_accept grant none
    ∷ timer TimerKind.reauth
    ∷ []

step-Consistent_example :
    Leaves (step waiting (access_accept grant none) default_config) opened_world
step-Consistent_example =
    step-Consistent waiting opened_world default_config waiting-Consistent
      (access_accept grant none) tt

live_accounts_example :
    let (t, v) = live (new_session station) start_world visit default_config in
    Alternates false
      (accountings (run (new_session station) visit default_config).1)
      (is_some t.authz)
    × Shows t.authz v.posture
unfolding new_session
live_accounts_example =
    live_accounts station visit default_config (refl, (tt, (tt, (tt, (tt, (tt, (tt, tt)))))))

live_waits_example :
    let (t, v) = live (new_session station) start_world visit default_config in
    ends_wait t.state v.timers ≡ true
unfolding new_session
live_waits_example =
    live_waits station visit default_config (refl, (tt, (tt, (tt, (tt, (tt, (tt, tt)))))))

grants-step_example : grants (step waiting (access_accept grant none) default_config).1 ≡ grant ∷ []
grants-step_example = grants-step waiting (access_accept grant none) default_config

coa_authorize_lost_example :
    let (t, fx) = step waiting (coa_authorize other) default_config in
    let v = perform_all fx (expired (coa_authorize other) opened_world) in
    let (t', gx) = step t server_unreachable default_config in
    let v' = perform_all gx (expired server_unreachable v) in
    (t'.state ≡ authenticated) × (t'.authz ≡ some grant) × (v'.posture ≡ authorized grant)
coa_authorize_lost_example =
    coa_authorize_lost waiting opened_world other default_config waiting-Consistent refl refl

silences_give_up_example :
    (run (record waiting { state = connecting }) (silences 2) default_config).0.state ≢ connecting
silences_give_up_example =
    silences_give_up 1 (record waiting { state = connecting }) default_config (omega arith)

session_timeout_lost_example :
    let (t, fx) = step waiting (timer TimerKind.session_timeout) default_config in
    let v = perform_all fx (expired (timer TimerKind.session_timeout) opened_world) in
    let (t', gx) = step t server_unreachable default_config in
    (perform_all gx v).timers.session_timeout ≡ false
session_timeout_lost_example =
    (session_timeout_lost waiting opened_world default_config waiting-Consistent refl refl).2

-- The hold timer was cancelled, and its event arrives while the session waits for the server.
stale_timer_ignored_example : step waiting (timer TimerKind.held) default_config ≡ (waiting, [])
stale_timer_ignored_example = stale_timer_ignored waiting TimerKind.held default_config refl

run_bounded_example :
    let t = (run (new_session station) visit default_config).0 in
    (t.tx_count ≤ max 1 2) × (t.eap_id < 256)
unfolding new_session
run_bounded_example =
    run_bounded visit (new_session station) default_config (omega arith) (omega arith)
