-- ===== src/Tests/Service.antt =====
-- crates/authd/src/worker.rs: a port that is brought into service.
use usg_authenticator.Prelude.{◌*◌, ◌≤◌, length, arith, ℕ, suc, ◌≡◌, refl, List, [], ◌∷◌, codes, ok}
use usg_authenticator.Pae.Config.{default_config, default_timers}
use usg_authenticator.Pae.Port.{enable_port}
use usg_authenticator.Pae.Port.WellFormed.{WellFormed}
use usg_authenticator.Authd.Dispatch.{new_orchestrator}
use usg_authenticator.Authd.Loop.{apply_effects, perform}
use usg_authenticator.Authd.Worker.Run.{
  Boundary, PortSetup, Input, received, Serving, serve_all, PortDeps, run_port,
}
use usg_authenticator.Authd.Worker.Run.Fold.{
  after_trap, after_open, after_close, begun, run_port-WellFormed,
}
use usg_authenticator.Authd.Dispatch.AcctIds.{Given}
use usg_authenticator.Authd.Worker.Run.AcctIds.{run_port-Given}
use usg_authenticator.Tests.Sessions.{station}
use usg_authenticator.Tests.Replies.{codec, context}

-- Everything succeeds; the world counts the calls.
abbrev boundary : Boundary
boundary = record {
  World = ℕ;
  Failure = Unit;
  open_socket = λ port w. (suc w, ok tt);
  send = λ bytes w. (suc w, ok tt);
  request = λ p w. (suc w, ok p);
  ensure_eapol_trap = λ port w. (suc w, ok tt);
  apply = λ port target auth w. (suc w, ok tt);
  arm = λ mac kind n w. suc w;
  cancel = λ mac kind w. suc w;
  cancel_all = λ mac w. suc w;
  generate_request_authenticator = λ w. (w, []);
}

abbrev pub setup : PortSetup
setup = record {
  port = codes "Ethernet0";
  switch_mac = station;
  pae_cfg = default_config;
  timers = default_timers;
  secret = [];
  ctx_template = context;
}

-- Octets that are no EAPOL frame, and then the EAPOL-Start of a station.
abbrev pub arrivals : List (Input Unit)
arrivals =
    received (ok (1 ∷ 2 ∷ []))
    ∷ received
        (ok (1 ∷ 128 ∷ 194 ∷ 0 ∷ 0 ∷ 3 ∷ 2 ∷ 0 ∷ 0 ∷ 0 ∷ 0 ∷ 7 ∷ 0x88 ∷ 0x8E ∷ 2 ∷ 1 ∷ 0 ∷ 0 ∷ []))
    ∷ []

abbrev served : Serving codec (PortDeps codec boundary setup)
served = serve_all codec (PortDeps codec boundary setup) arrivals (begun codec boundary setup 0)

runs : run_port codec boundary setup arrivals 0 ≡ (served.st.world, ok served)
unfolding run_port apply_effects enable_port perform new_orchestrator
runs = refl

run_port-WellFormed_example :
    ((after_trap codec boundary setup 0).1 ≡ ok tt)
    × ((after_open codec boundary setup 0).1 ≡ ok tt)
    × ((after_close codec boundary setup 0).1 ≡ ok tt)
    × WellFormed served.pae
    × (served.pae.cfg ≡ default_config)
run_port-WellFormed_example =
    run_port-WellFormed codec boundary setup arrivals 0 served.st.world served runs

run_port-Given_example : Given served.st.orch × (served.st.orch.acct_counter ≤ 2 * length arrivals)
run_port-Given_example =
    run_port-Given codec boundary setup arrivals 0 served.st.world served (omega arith) runs
