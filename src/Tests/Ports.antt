-- ===== src/Tests/Ports.antt =====
-- crates/pae: ports with one and with two stations.
use usg_authenticator.Prelude.{◌≡◌, ◌≢◌, refl, sym, [], ◌∷◌, arith}
use usg_authenticator.Pacp.Ethernet.{MacAddr}
use usg_authenticator.Pae.Config.{default_config}
use usg_authenticator.Pae.Event.{eapol_logoff}
use usg_authenticator.Pae.Port.{max_sessions, PortPae, find, handle}
use usg_authenticator.Pae.Port.WellFormed.{WellFormed, handle-WellFormed}
use usg_authenticator.Pae.Port.Isolation.{handle_isolates}
use usg_authenticator.Tests.Sessions.{station, waiting}

abbrev phone : MacAddr
phone = record { m0 = 2; m1 = 0; m2 = 0; m3 = 0; m4 = 0; m5 = 9 }

abbrev shared : PortPae
shared = record { cfg = default_config; sessions = waiting ∷ record waiting { mac = phone } ∷ [] }

apart : station ≢ phone
apart h = ground arith

shared-WellFormed : WellFormed shared
unfolding max_sessions
shared-WellFormed = record {
  are_live = (refl, (refl, tt));
  distinct = ((λ h. apart (sym h), tt), (tt, tt));
  within = tt;
}

handle-WellFormed_example : WellFormed (handle shared phone eapol_logoff).0
handle-WellFormed_example = handle-WellFormed shared phone eapol_logoff shared-WellFormed

handle_isolates_example :
    find station (handle shared phone eapol_logoff).0.sessions ≡ find station shared.sessions
handle_isolates_example = handle_isolates shared phone station eapol_logoff shared-WellFormed apart
