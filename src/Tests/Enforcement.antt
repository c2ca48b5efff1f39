-- ===== src/Tests/Enforcement.antt =====
-- crates/authd/src/worker.rs: a port whose enforcement and timers are kept for each station.
use usg_authenticator.Prelude.{
  ◌≡◌, refl, List, [], ◌∷◌, ◌++◌, arith, All, none, if◌then◌else◌, true, false, ok,
}
use usg_authenticator.Pacp.Ethernet.{MacAddr, mac_eq}
use usg_authenticator.Pae.Config.{TimerKind}
use usg_authenticator.Pae.Effect.{unauthorized}
use usg_authenticator.Pae.Event.{timer}
use usg_authenticator.Pae.Port.{
  enable_port, find, handle, can_admit, admit, decorate, first_contact, replace, prune,
  active_sessions, drop_new,
}
use usg_authenticator.Pae.Session.{new_session, send_identity}
use usg_authenticator.Pae.Step.{step, by_state, in_connecting, on_enable}
use usg_authenticator.Pacp.Frame.{decode_frame}
use usg_authenticator.Pacp.Pdu
use usg_authenticator.Pacp.Eap.{request_identity}
use usg_authenticator.Authd.Timers.{duration}
use usg_authenticator.Authd.Worker.{frame_event, supplicant_frame}
use usg_authenticator.Pae.World.{no_timers, put}
use usg_authenticator.Authd.Dispatch.{new_orchestrator, timer_duration}
use usg_authenticator.Authd.Loop.{apply_effects, perform, handle_event, drain, dispatch_all}
use usg_authenticator.Authd.Observed.{Station, reaches}
use usg_authenticator.Authd.Worker.Run.{
  Boundary, Input, expired, Serving, serve_all, serve, dispatch_frame, send_eap, PortDeps, run_port,
}
use usg_authenticator.Authd.Worker.Run.Watched.{Watched}
use usg_authenticator.Authd.Worker.Run.Fold.{begun}
use usg_authenticator.Authd.Worker.Run.Enforced.{Enforced, run_port-Enforced}
use usg_authenticator.Authd.Worker.Run.Running.{IsDriven}
use usg_authenticator.Tests.Sessions.{station}
use usg_authenticator.Tests.Replies.{codec}
use usg_authenticator.Tests.Service.{setup, arrivals}

abbrev Board : Type 0
Board = MacAddr → Station

abbrev board : Boundary
board = record {
  World = Board;
  Failure = Unit;
  open_socket = λ port w. (w, ok tt);
  send = λ bytes w. (w, ok tt);
  request = λ p w. (w, ok p);
  ensure_eapol_trap = λ port w. (w, ok tt);
  apply = λ port target auth w.
      ((λ n. if reaches target n then record (w n) { shown = auth } else w n), ok tt);
  arm = λ mac k d w n.
      if mac_eq mac n then record (w n) { timers = put k true (w n).timers } else w n;
  cancel =
      λ mac k w n. if mac_eq mac n then record (w n) { timers = put k false (w n).timers } else w n;
  cancel_all = λ mac w n. if mac_eq mac n then record (w n) { timers = no_timers } else w n;
  generate_request_authenticator = λ w. (w, []);
}

abbrev kept_apart : Watched board
kept_apart = record {
  look = λ w n. w n;
  send-look = λ bytes w n. refl;
  request-look = λ q w n. refl;
  generate-look = λ w n. refl;
  apply-look = λ port t a w n h. refl;
  arm-look = λ mac k d w n. refl;
  cancel-look = λ mac k w n. refl;
  cancel_all-look = λ mac w n. refl;
}

abbrev before : Board
before n = record { shown = unauthorized; timers = no_timers }

-- After the EAPOL-Start of a station, its tx-period expires.
abbrev pub stream : List (Input Unit)
stream = arrivals ++ (expired station (timer TimerKind.tx_period) ∷ [])

abbrev served : Serving codec (PortDeps codec board setup)
served = serve_all codec (PortDeps codec board setup) stream (begun codec board setup before)

runs : run_port codec board setup stream before ≡ (served.st.world, ok served)
unfolding run_port apply_effects enable_port perform new_orchestrator
runs = refl

pub driven : All IsDriven stream
driven = (tt, (tt, ((λ e. ground arith), tt)))

still_running : served.stopped ≡ none
unfolding serve_all serve dispatch_frame frame_event handle_event drain dispatch_all perform step
    by_state in_connecting on_enable send_identity handle find can_admit admit decorate
    first_contact replace prune active_sessions drop_new new_session mac_eq new_orchestrator
    timer_duration duration send_eap supplicant_frame decode_frame Pdu.decode Pdu.get_to Pdu.from_u8
    Pdu.encode_frame Pdu.new request_identity
still_running = refl

run_port-Enforced_example : Enforced (find station served.pae.sessions) (served.st.world station)
run_port-Enforced_example =
    run_port-Enforced codec board setup kept_apart stream before served.st.world served refl driven
      runs still_running station
