-- ===== src/Authd/Worker/Run/Fold.antt =====
-- crates/authd/src/worker.rs: what every run of `run_port` keeps, and what comes before its loop.
use usg_authenticator.Prelude.{
  ◌≡◌, ◌≢◌, refl, ◌∙◌, List, [], ◌∷◌, ◌++◌, none, Text, Result, ok, err, arith, inl, inr,
  Option-cases,
}
use usg_authenticator.Pacp.Ethernet.{MacAddr}
use usg_authenticator.Pae.Config.{PaeConfig}
use usg_authenticator.Pae.Effect.{unauthorized}
use usg_authenticator.Pae.Event.{Event}
use usg_authenticator.Pae.Port.{PortPae, handle, enable_port, max_sessions}
use usg_authenticator.Pae.Port.WellFormed.{WellFormed, Within, handle-cfg, handle-WellFormed}
use usg_authenticator.Enforce.{Target}
use usg_authenticator.Radius.Proto.{RadiusProto}
use usg_authenticator.Authd.Error.{AuthdError}
use usg_authenticator.Authd.Deps.{Deps}
use usg_authenticator.Authd.Dispatch.{St, Err, new_orchestrator}
use usg_authenticator.Authd.Loop.{dispatch_all, apply_effects, perform, handle_event}
use usg_authenticator.Authd.Loop.Steps.{drain_inv}
use usg_authenticator.Authd.Worker.{frame_event}
use usg_authenticator.Authd.Worker.Run.{
  Boundary, PortSetup, Input, received, expired, Serving, settled, dispatch_frame, serve, serve_all,
  PortDeps, run_port,
}

module _ (P : RadiusProto) (D : Deps P) where
  serve_all_stopped :
      (is : List (Input D.Failure)) (s : Serving P D) → (s.stopped ≢ none) → serve_all P D is s ≡ s
  unfolding serve_all
  serve_all_stopped [] s h = refl
  serve_all_stopped (i ∷ is) s h = ground arith

  -- Serving one sequence of inputs and then another is serving the two together.
  pub serve_all-append :
      (is js : List (Input D.Failure)) (s : Serving P D)
      → serve_all P D (is ++ js) s ≡ serve_all P D js (serve_all P D is s)
  unfolding serve_all
  serve_all-append [] js s = refl
  serve_all-append (i ∷ is) js s = elim (Option-cases s.stopped) [
    | inl running ↦ ground (arith, serve_all-append is js (serve P D i s.pae s.st))
    | inr (e, ended) ↦ ground (arith, serve_all_stopped js s)
  ]

  module _ {ℓ κ} (I : PortPae → Type ℓ) (S : St P D → Type κ)
      (ports : (p : PortPae) (m : MacAddr) (e : Event) → I p → I (handle p m e).0)
      (states : (p : PortPae) (m : MacAddr) (e : Event) (st : St P D)
        → I p
        → S st
        → S (dispatch_all P D m (handle p m e).1 st).0) where
    abbrev Holds : Serving P D → Type (ℓ ⊔ κ)
    Holds s = I s.pae × S s.st

    settled-Holds :
        (r : PortPae × (St P D × Result (Err P D) (Unit {0})))
        → I r.0
        → S r.1.0
        → Holds (settled P D r)
    settled-Holds (p, (st, ok _)) i j = (i, j)
    settled-Holds (p, (st, err e)) i j = (i, j)

    handle_event-Holds :
        (p : PortPae) (m : MacAddr) (e : Event) (st : St P D)
        → I p
        → S st
        → I (handle_event P D p m e st).0 × S (handle_event P D p m e st).1.0
    unfolding handle_event
    handle_event-Holds p m e st i j = drain_inv P D I S ports states 64 p ((m, e) ∷ []) st i j

    event-Holds :
        (p : PortPae) (m : MacAddr) (e : Event) (st : St P D)
        → I p
        → S st
        → Holds (settled P D (handle_event P D p m e st))
    event-Holds p m e st i j =
        let both = handle_event-Holds p m e st i j in
        settled-Holds (handle_event P D p m e st) both.0 both.1

    serve-Holds :
        (input : Input D.Failure) (p : PortPae) (st : St P D)
        → I p
        → S st
        → Holds (serve P D input p st)
    unfolding serve dispatch_frame
    serve-Holds (expired m e) p st i j = event-Holds p m e st i j
    serve-Holds (received (err e)) p st i j = (i, j)
    serve-Holds (received (ok bytes)) p st i j = elim (Option-cases (frame_event bytes)) [
      | inl ignored ↦ rw ignored (i, j)
      | inr ((m, e), is_event) ↦ rw is_event (event-Holds p m e st i j)
    ]

    -- What the port keeps on every event, and the effects of each event keep of the state, holds
    -- after any sequence of inputs.
    pub serve_all_inv :
        (is : List (Input D.Failure)) (s : Serving P D) → Holds s → Holds (serve_all P D is s)
    unfolding serve_all
    serve_all_inv [] s h = h
    serve_all_inv (i ∷ is) s h = elim (Option-cases s.stopped) [
      | inl running ↦
          rw running (serve_all_inv is (serve P D i s.pae s.st) (serve-Holds i s.pae s.st h.0 h.1))
      | inr (e, ended) ↦ rw ended h
    ]

pub empty-WellFormed : (cfg : PaeConfig) → WellFormed (record { cfg = cfg; sessions = [] })
empty-WellFormed cfg = record { are_live = tt; distinct = tt; within = none_within }
  where
    none_within : Within (max_sessions cfg.host_mode) 0
    none_within = ground arith

module _ (P : RadiusProto) (B : Boundary) (setup : PortSetup) where
  abbrev pub after_trap : B.World → B.World × Result Text (Unit {0})
  after_trap w = B.ensure_eapol_trap setup.port w

  abbrev pub after_open : B.World → B.World × Result B.Failure (Unit {0})
  after_open w = B.open_socket setup.port (after_trap w).0

  abbrev pub after_close : B.World → B.World × Result Text (Unit {0})
  after_close w = B.apply setup.port Target.port unauthorized (after_open w).0

  abbrev pub begun : B.World → Serving P (PortDeps P B setup)
  begun w = record {
    pae = record { cfg = setup.pae_cfg; sessions = [] };
    st = record {
      orch = new_orchestrator setup.port setup.ctx_template;
      world = (after_close w).0;
    };
    stopped = none;
  }

  pub run_port-begun :
      (inputs : List (Input B.Failure)) (w v : B.World) (s : Serving P (PortDeps P B setup))
      → run_port P B setup inputs w ≡ (v, ok s)
      → ((after_trap w).1 ≡ ok tt)
        × ((after_open w).1 ≡ ok tt)
        × ((after_close w).1 ≡ ok tt)
        × (s ≡ serve_all P (PortDeps P B setup) inputs (begun w))
        × (v ≡ s.st.world)
  unfolding run_port apply_effects enable_port perform new_orchestrator
  run_port-begun inputs w v s h = ground arith

  -- A port is serviced only after the trap was confirmed, the socket opened, and the whole port
  -- closed by the enforcer, in this order, each with success; and whatever frames, socket errors
  -- and timer events arrive then, in whatever order, the port keeps its configuration, every
  -- session of it is in use, no station has two, and they are never more than the host mode
  -- allows.
  pub run_port-WellFormed :
      (inputs : List (Input B.Failure)) (w v : B.World) (s : Serving P (PortDeps P B setup))
      → run_port P B setup inputs w ≡ (v, ok s)
      → ((after_trap w).1 ≡ ok tt)
        × ((after_open w).1 ≡ ok tt)
        × ((after_close w).1 ≡ ok tt)
        × WellFormed s.pae
        × (s.pae.cfg ≡ setup.pae_cfg)
  run_port-WellFormed inputs w v s h =
      let begin = run_port-begun inputs w v s h in
      let both : (WellFormed s.pae × (s.pae.cfg ≡ setup.pae_cfg)) × Unit {0} = rw begin.3 (
        serve_all_inv P (PortDeps P B setup) (λ p. WellFormed p × (p.cfg ≡ setup.pae_cfg))
          (λ st. Unit {0}) (λ p m e i. (handle-WellFormed p m e i.0, handle-cfg p m e ∙ i.1))
          (λ p m e st i j. tt) inputs (begun w) ((empty-WellFormed setup.pae_cfg, refl), tt)) in
      (begin.0, begin.1, begin.2, both.0.0, both.0.1)

  -- A port whose trap, socket or closing fails is not serviced: whatever would have arrived, the
  -- outcome is the same error, in the same world.
  pub run_port-err :
      (inputs others : List (Input B.Failure)) (w v : B.World)
      (x : AuthdError P.PacketError B.Failure)
      → run_port P B setup inputs w ≡ (v, err x)
      → run_port P B setup others w ≡ (v, err x)
  unfolding run_port
  run_port-err inputs others w v x h = ground arith
