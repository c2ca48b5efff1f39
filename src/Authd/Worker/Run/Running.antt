-- ===== src/Authd/Worker/Run/Running.antt =====
-- crates/authd/src/worker.rs: what a run of the loop that meets no error keeps of the port and the state together.
use usg_authenticator.Prelude.{
  ℕ, ◌≡◌, ◌≢◌, refl, List, [], ◌∷◌, none, some, Result, ok, err, arith, inl, inr, Option-cases, All,
  true,
}
use usg_authenticator.Pacp.Ethernet.{MacAddr}
use usg_authenticator.Pae.Event.{Event, enable}
use usg_authenticator.Pae.Port.{PortPae, handle}
use usg_authenticator.Radius.Proto.{RadiusProto}
use usg_authenticator.Authd.Deps.{Deps}
use usg_authenticator.Authd.Dispatch.{St, Err}
use usg_authenticator.Authd.Loop.{dispatch_all, handle_event}
use usg_authenticator.Authd.Loop.Steps.{drain_both}
use usg_authenticator.Pae.Port.Relays.{is_answer}
use usg_authenticator.Authd.Loop.Bound.{dispatch_all-answers}
use usg_authenticator.Authd.Worker.{frame_event}
use usg_authenticator.Authd.Worker.Run.{
  Input, received, expired, Serving, settled, dispatch_frame, serve, serve_all,
}

-- Only the session itself is ever enabled: the timers send no such event.
abbrev pub IsDriven : {F : Type 0} → Input F → Type 0
IsDriven (expired mac e) = e ≢ enable
IsDriven (received r) = Unit

answer_proper : (e : Event) → is_answer e ≡ true → e ≢ enable
answer_proper e h = ground arith

frame_proper :
    (bytes : List ℕ) (mac : MacAddr) (e : Event) → frame_event bytes ≡ some (mac, e) → e ≢ enable
unfolding frame_event
frame_proper bytes mac e h = ground arith

module _ {ℓ} (P : RadiusProto) (D : Deps P) (R : PortPae → St P D → Type ℓ)
    (one : (p : PortPae) (m : MacAddr) (e : Event) (st : St P D) (q : List (MacAddr × Event))
      → e ≢ enable
      → (dispatch_all P D m (handle p m e).1 st).1 ≡ ok q
      → R p st
      → R (handle p m e).0 (dispatch_all P D m (handle p m e).1 st).0) where
  abbrev Keeps : Serving P D → Type ℓ
  Keeps s = R s.pae s.st

  answers_proper :
      (f : List (MacAddr × Event)) → All (λ x. is_answer x.1 ≡ true) f → All (λ x. x.1 ≢ enable) f
  answers_proper [] h = tt
  answers_proper (x ∷ f) (h, more) = (answer_proper x.1 h, answers_proper f more)

  -- What an event whose effects succeed keeps, handle_event keeps if it succeeds.
  pub handle_event_both :
      (p : PortPae) (m : MacAddr) (e : Event) (st : St P D)
      → e ≢ enable
      → R p st
      → (handle_event P D p m e st).1.1 ≡ ok tt
      → R (handle_event P D p m e st).0 (handle_event P D p m e st).1.0
  unfolding handle_event
  handle_event_both p m e st ne a r =
      drain_both P D R (λ x. x.1 ≢ enable)
        (λ q n x t f proper went kept. (
          answers_proper f (dispatch_all-answers P D n (handle q n x).1 t f went).0,
          one q n x t f proper went kept,
        ))
        64 p ((m, e) ∷ []) st (ne, tt) a r

  settled-Keeps :
      (r : PortPae × (St P D × Result (Err P D) (Unit {0})))
      → (r.1.1 ≡ ok tt → R r.0 r.1.0)
      → (settled P D r).stopped ≡ none
      → Keeps (settled P D r)
  settled-Keeps (p, (st, ok done)) kept h = kept refl
  settled-Keeps (p, (st, err x)) kept h = absurd (ground (arith, h))

  event-Keeps :
      (p : PortPae) (m : MacAddr) (e : Event) (st : St P D)
      → e ≢ enable
      → R p st
      → (settled P D (handle_event P D p m e st)).stopped ≡ none
      → Keeps (settled P D (handle_event P D p m e st))
  event-Keeps p m e st ne a h =
      settled-Keeps (handle_event P D p m e st) (handle_event_both p m e st ne a) h

  serve-Keeps :
      (input : Input D.Failure) (p : PortPae) (st : St P D)
      → IsDriven input
      → R p st
      → (serve P D input p st).stopped ≡ none
      → Keeps (serve P D input p st)
  unfolding serve dispatch_frame
  serve-Keeps (expired m e) p st ne a h = event-Keeps p m e st ne a h
  serve-Keeps (received (err e)) p st ne a h = absurd (ground (arith, h))
  serve-Keeps (received (ok bytes)) p st ne a h = elim (Option-cases (frame_event bytes)) [
    | inl ignored ↦ rw ignored a
    | inr ((m, e), is_event) ↦
        rw is_event (event-Keeps p m e st (frame_proper bytes m e is_event) a (rw is_event at h))
  ]

  stays_stopped :
      (is : List (Input D.Failure)) (s : Serving P D) (x : Err P D)
      → s.stopped ≡ some x
      → serve_all P D is s ≡ s
  unfolding serve_all
  stays_stopped [] s x h = refl
  stays_stopped (i ∷ is) s x h = rw h refl

  -- And so does the loop, over any inputs after which it still runs.
  pub serve_all_both :
      (is : List (Input D.Failure)) (s : Serving P D)
      → All IsDriven is
      → s.stopped ≡ none
      → Keeps s
      → (serve_all P D is s).stopped ≡ none
      → Keeps (serve_all P D is s)
  unfolding serve_all
  serve_all_both [] s driven running k h = k
  serve_all_both (i ∷ is) s driven running k h =
      elim (Option-cases (serve P D i s.pae s.st).stopped) [
        | inl on ↦ rw running (
            serve_all_both is (serve P D i s.pae s.st) driven.1 on
              (serve-Keeps i s.pae s.st driven.0 k on) (rw running at h))
        | inr (x, ended) ↦
            absurd (ground (arith, stays_stopped is (serve P D i s.pae s.st) x ended))
      ]
