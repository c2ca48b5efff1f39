-- ===== src/Authd/Worker/Run/AcctIds.antt =====
-- crates/authd/src/worker.rs: the Acct-Session-Ids of the stations of a port.
use usg_authenticator.Prelude.{
  ℕ, ◌+◌, ◌*◌, ◌^◌, ◌<◌, ◌≤◌, ◌≡◌, List, [], ◌∷◌, some, Text, Result, ok, err, length, arith,
  Option-cases, inl, inr,
}
use usg_authenticator.Pacp.Ethernet.{MacAddr}
use usg_authenticator.Radius.Proto.{RadiusProto}
use usg_authenticator.Radius.Context.{RequestContext}
use usg_authenticator.Authd.Deps.{Deps}
use usg_authenticator.Authd.Dispatch.{St, Err, Orchestrator, session_of, get, new_orchestrator}
use usg_authenticator.Authd.Dispatch.AcctIds.{Given}
use usg_authenticator.Pae.Port.{PortPae, handle}
use usg_authenticator.Authd.Loop.AcctIds.{Knows, dispatch_all-Knows}
use usg_authenticator.Authd.Loop.{handle_event}
use usg_authenticator.Authd.Loop.Unique.{Counted, handle_event-Counted}
use usg_authenticator.Authd.Worker.{frame_event}
use usg_authenticator.Authd.Worker.Run.{
  Input, received, expired, Serving, settled, serve, dispatch_frame, serve_all, Boundary, PortSetup,
  PortDeps, run_port,
}
use usg_authenticator.Authd.Worker.Run.Fold.{serve_all_inv, begun, run_port-begun}

module _ (P : RadiusProto) (D : Deps P) where
  -- A station that has an Acct-Session-Id keeps it whatever arrives, in whatever order, the
  -- Accounting-Stop of its session and the Accounting-Start of its next one included.
  pub acct_id_never_changes :
      (is : List (Input D.Failure)) (s : Serving P D) (mac : MacAddr) (id : Text)
      → (session_of s.st.orch mac).acct_id ≡ some id
      → (session_of (serve_all P D is s).st.orch mac).acct_id ≡ some id
  acct_id_never_changes is s mac id has =
      (serve_all_inv P D (λ p. Unit {0}) (Knows mac id P D) (λ p m e i. tt)
        (λ p m e st i k. dispatch_all-Knows mac id P D m (handle p m e).1 st k) is s (tt, has)).1

  settled-Counted :
      (k : ℕ) (r : PortPae × (St P D × Result (Err P D) (Unit {0})))
      → Counted k r.1.0.orch
      → Counted k (settled P D r).st.orch
  settled-Counted k (p, (st, ok done)) c = c
  settled-Counted k (p, (st, err x)) c = c

  more-Counted : (j k : ℕ) (o : Orchestrator) → j ≤ k → Counted j o → Counted k o
  more-Counted j k o le (g, h) = (g, omega arith)

  serve-Counted :
      (k : ℕ) (input : Input D.Failure) (p : PortPae) (st : St P D)
      → k + 2 < 2 ^ 64
      → Counted k st.orch
      → Counted (k + 2) (serve P D input p st).st.orch
  unfolding serve dispatch_frame
  serve-Counted k (expired m e) p st room c =
      settled-Counted (k + 2) (handle_event P D p m e st)
        (handle_event-Counted P D k p m e st room c)
  serve-Counted k (received (err e)) p st room c = more-Counted k (k + 2) st.orch (omega arith) c
  serve-Counted k (received (ok bytes)) p st room c = elim (Option-cases (frame_event bytes)) [
    | inl ignored ↦ rw ignored (more-Counted k (k + 2) st.orch (omega arith) c)
    | inr ((m, e), is_event) ↦ rw is_event (
        settled-Counted (k + 2) (handle_event P D p m e st)
          (handle_event-Counted P D k p m e st room c))
  ]

  serve_all-Counted :
      (is : List (Input D.Failure)) (k : ℕ) (s : Serving P D)
      → k + 2 * length is < 2 ^ 64
      → Counted k s.st.orch
      → Counted (k + 2 * length is) (serve_all P D is s).st.orch
  unfolding serve_all
  serve_all-Counted [] k s room c = more-Counted k (k + 0) s.st.orch (omega arith) c
  serve_all-Counted (i ∷ is) k s room c = elim (Option-cases s.stopped) [
    | inr (x, ended) ↦ rw ended (more-Counted k (k + 2 * length (i ∷ is)) s.st.orch (omega arith) c)
    | inl running ↦ rw running (
        more-Counted (k + 2 + 2 * length is) (k + 2 * length (i ∷ is)) _ (omega arith) (
          serve_all-Counted is (k + 2) (serve P D i s.pae s.st) (omega arith)
            (serve-Counted k i s.pae s.st (omega arith) c)))
  ]

pub new_orchestrator-Counted :
    (port : Text) (ctx : RequestContext) → Counted 0 (new_orchestrator port ctx)
unfolding new_orchestrator get
new_orchestrator-Counted port ctx = (
  record {
    from_counter = λ mac id h. absurd (ground arith);
    unique = λ a b id h j. absurd (ground arith);
  },
  omega arith,
)

module _ (P : RadiusProto) (B : Boundary) (setup : PortSetup) where
  -- When run_port has served any frames, errors and timer events, fewer than 2^63, in whatever
  -- order: every Acct-Session-Id that a station has was given by the counter, which has given two
  -- for each of them at most, and no two stations have the same.
  pub run_port-Given :
      (inputs : List (Input B.Failure)) (w v : B.World) (s : Serving P (PortDeps P B setup))
      → 2 * length inputs < 2 ^ 64
      → run_port P B setup inputs w ≡ (v, ok s)
      → Given s.st.orch × (s.st.orch.acct_counter ≤ 2 * length inputs)
  run_port-Given inputs w v s room ran =
      let (trap, socket, closed, is, there) = run_port-begun P B setup inputs w v s ran in
      let c =
        serve_all-Counted P (PortDeps P B setup) inputs 0 (begun P B setup w) (omega arith)
          (new_orchestrator-Counted setup.port setup.ctx_template) in
      rw is (c.0, omega (arith, c.1))
