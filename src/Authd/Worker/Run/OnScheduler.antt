-- ===== src/Authd/Worker/Run/OnScheduler.antt =====
-- crates/authd/src/worker.rs: `run_port` with its TokioScheduler, whose lock nothing poisons (no code
-- panics while it is held).
use usg_authenticator.Prelude.{
  ℕ, ◌≡◌, ap, All, List, Text, Result, ok, Bool, true, false, none, if◌then◌else◌, arith,
}
use usg_authenticator.Pacp.Ethernet.{MacAddr, mac_eq}
use usg_authenticator.Pae.Effect.{PortAuthorization}
use usg_authenticator.Pae.World.{Timers, no_timers, put}
use usg_authenticator.Enforce.{Target}
use usg_authenticator.Radius.Proto.{Packet, RadiusProto}
use usg_authenticator.Pae.Port.{find, is_multi_host}
use usg_authenticator.Authd.Observed.{Station, reaches}
use usg_authenticator.Authd.Worker.Scheduler.{Runtime, TokioScheduler, arm, cancel, cancel_all}
use usg_authenticator.Authd.Worker.Scheduler.Armed.{
  usable, running, running-arm, running-cancel, running-cancel_all,
}
use usg_authenticator.Authd.Worker.Run.{Boundary, PortSetup, Input, Serving, PortDeps, run_port}
use usg_authenticator.Authd.Worker.Run.Running.{IsDriven}
use usg_authenticator.Authd.Worker.Run.Enforced.{Enforced, run_port-Enforced}
use usg_authenticator.Authd.Worker.Run.Watched.{Watched}

-- The socket, the connection and the enforcer, and what is enforced for each station.
pub record Rest : Type 1 where
  pub World : Type 0
  pub Failure : Type 0
  pub open_socket : Text → World → World × Result Failure (Unit {0})
  pub send : List ℕ → World → World × Result Failure (Unit {0})
  pub request : Packet → World → World × Result Failure Packet
  pub ensure_eapol_trap : Text → World → World × Result Text (Unit {0})
  pub apply : Text → Target → PortAuthorization → World → World × Result Text (Unit {0})
  pub generate_request_authenticator : World → World × List ℕ
  pub shown : World → MacAddr → PortAuthorization
  pub send-shown : (bytes : List ℕ) (w : World) (n : MacAddr) → shown (send bytes w).0 n ≡ shown w n
  pub request-shown : (q : Packet) (w : World) (n : MacAddr) → shown (request q w).0 n ≡ shown w n
  pub generate-shown :
      (w : World) (n : MacAddr) → shown (generate_request_authenticator w).0 n ≡ shown w n
  pub apply-shown :
      (port : Text) (t : Target) (a : PortAuthorization) (w : World) (n : MacAddr)
      → (apply port t a w).1 ≡ ok tt
      → shown (apply port t a w).0 n ≡ (if reaches t n then a else shown w n)

module _ (R : Runtime) (H : Rest) where
  pub record Daemon : Type 0 where
    pub scheduler : TokioScheduler R
    pub rest : H.World

  abbrev on_rest {ℓ} : {A : Type ℓ} → (H.World → H.World × A) → Daemon → Daemon × A
  on_rest act w = let (h, r) = act w.rest in (record w { rest = h }, r)

  abbrev on_scheduler : (TokioScheduler R → TokioScheduler R) → Daemon → Daemon
  on_scheduler act w = record w { scheduler = act (usable R w.scheduler) }

  abbrev scheduled : Boundary
  scheduled = record {
    World = Daemon;
    Failure = H.Failure;
    open_socket = λ port. on_rest (H.open_socket port);
    send = λ bytes. on_rest (H.send bytes);
    request = λ q. on_rest (H.request q);
    ensure_eapol_trap = λ port. on_rest (H.ensure_eapol_trap port);
    apply = λ port target auth. on_rest (H.apply port target auth);
    arm = λ mac k d. on_scheduler (arm R mac k d);
    cancel = λ mac k. on_scheduler (cancel R mac k);
    cancel_all = λ mac. on_scheduler (cancel_all R mac);
    generate_request_authenticator = on_rest H.generate_request_authenticator;
  }

  abbrev station : Daemon → MacAddr → Station
  station w n = record { shown = H.shown w.rest n; timers = running R w.scheduler n }

  abbrev with_timers : Timers → PortAuthorization → Station
  with_timers ts a = record { shown = a; timers = ts }

  timers_change :
      (c : Bool) (a : PortAuthorization) (new before after : Timers)
      → after ≡ (if c then new else before)
      → with_timers after a ≡ (if c then with_timers new a else with_timers before a)
  timers_change c a new before after h = grind arith

  shown_change :
      (c : Bool) (ts : Timers) (new before after : PortAuthorization)
      → after ≡ (if c then new else before)
      → with_timers ts after ≡ (if c then with_timers ts new else with_timers ts before)
  shown_change c ts new before after h = grind arith

  -- The scheduler's handles are what the orchestrator needs of the timers.
  abbrev watched : Watched scheduled
  watched = record {
    look = station;
    send-look =
        λ bytes w n. ap (with_timers (running R w.scheduler n)) (H.send-shown bytes w.rest n);
    request-look = λ q w n. ap (with_timers (running R w.scheduler n)) (H.request-shown q w.rest n);
    generate-look = λ w n. ap (with_timers (running R w.scheduler n)) (H.generate-shown w.rest n);
    apply-look = λ port t a w n h.
        shown_change (reaches t n) (running R w.scheduler n) a (H.shown w.rest n)
          (H.shown (H.apply port t a w.rest).0 n) (H.apply-shown port t a w.rest n h);
    arm-look = λ mac k d w n.
        timers_change (mac_eq mac n) (H.shown w.rest n) (put k true (running R w.scheduler n))
          (running R w.scheduler n) (running R (arm R mac k d (usable R w.scheduler)) n)
          (running-arm R mac k d w.scheduler n);
    cancel-look = λ mac k w n.
        timers_change (mac_eq mac n) (H.shown w.rest n) (put k false (running R w.scheduler n))
          (running R w.scheduler n) (running R (cancel R mac k (usable R w.scheduler)) n)
          (running-cancel R mac k w.scheduler n);
    cancel_all-look = λ mac w n.
        timers_change (mac_eq mac n) (H.shown w.rest n) no_timers (running R w.scheduler n)
          (running R (cancel_all R mac (usable R w.scheduler)) n)
          (running-cancel_all R mac w.scheduler n);
  }

  -- On a port that is not multi-host, whose timers are the scheduler's: after whatever frames and
  -- timer events were handled without an error, each station is enforced as its session says, and
  -- the scheduler keeps the abort handle of the timer that ends the wait of the session.
  run_port-Enforced-scheduled :
      (P : RadiusProto) (setup : PortSetup) (inputs : List (Input H.Failure)) (w v : Daemon)
      (s : Serving P (PortDeps P scheduled setup))
      → is_multi_host setup.pae_cfg.host_mode ≡ false
      → All IsDriven inputs
      → run_port P scheduled setup inputs w ≡ (v, ok s)
      → s.stopped ≡ none
      → (n : MacAddr) → Enforced (find n s.pae.sessions) (station v n)
  run_port-Enforced-scheduled P setup inputs w v s =
      run_port-Enforced P scheduled setup watched inputs w v s
