-- ===== src/Pae/Port/Counts.antt =====
-- crates/pae/src/port.rs: how many effects of one kind an event leads to.
use usg_authenticator.Prelude.{
  ℕ, suc, ◌+◌, ◌≤◌, ◌≡◌, refl, List, [], ◌∷◌, ◌++◌, Bool, arith, if◌then◌else◌, Bool-cases,
  Option-cases, inl, inr,
}
use usg_authenticator.Pacp.Ethernet.{MacAddr}
use usg_authenticator.Pae.Config.{HostMode, PaeConfig}
use usg_authenticator.Pae.Effect.{Effect}
use usg_authenticator.Pae.Event.{Event, enable}
use usg_authenticator.Pae.Session.{PortSession, new_session}
use usg_authenticator.Pae.Step.{step}
use usg_authenticator.Pae.Port.{
  PortPae, DirectedEffect, find, handle, admit, first_contact, decorate, can_admit, active_sessions,
}

abbrev pub count : (Effect → Bool) → List Effect → ℕ
count k [] = 0
count k (e ∷ es) = if k e then suc (count k es) else count k es

abbrev pub directed_count : (Effect → Bool) → List DirectedEffect → ℕ
directed_count k [] = 0
directed_count k (d ∷ ds) = if k d.effect then suc (directed_count k ds) else directed_count k ds

count-append :
    (k : Effect → Bool) (xs ys : List Effect) → count k (xs ++ ys) ≡ count k xs + count k ys
count-append k [] ys = omega arith
count-append k (x ∷ xs) ys = ground (arith, count-append k xs ys)

count-decorate :
    (k : Effect → Bool) (mode : HostMode) (mac : MacAddr) (fx : List Effect)
    → directed_count k (decorate mode mac fx) ≡ count k fx
unfolding decorate
count-decorate k mode mac [] = refl
count-decorate k mode mac (e ∷ fx) = ground (arith, count-decorate k mode mac fx)

-- A bound on the effects of a step, for a kind that enabling a session has none of.
module _ (k : Effect → Bool) (room : Event → ℕ)
    (steps : (s : PortSession) (e : Event) (cfg : PaeConfig) → count k (step s e cfg).1 ≤ room e)
    (enables : (s : PortSession) (cfg : PaeConfig) → count k (step s enable cfg).1 ≡ 0) where
  first_contact-count :
      (mac : MacAddr) (e : Event) (cfg : PaeConfig) → count k (first_contact mac e cfg).1 ≤ room e
  unfolding first_contact
  first_contact-count mac e cfg =
      let s = step (new_session mac) enable cfg in
      ground (
        arith,
        enables (new_session mac) cfg,
        steps s.0 e cfg,
        count-append k s.1 (step s.0 e cfg).1,
      )

  -- It bounds the effects of an event that the port handles.
  pub handle-count :
      (p : PortPae) (mac : MacAddr) (e : Event) → directed_count k (handle p mac e).1 ≤ room e
  unfolding handle admit
  handle-count p mac e = elim (Option-cases (find mac p.sessions)) [
    | inr (s, found) ↦
        rw (found, count-decorate k p.cfg.host_mode mac (step s e p.cfg).1) (steps s e p.cfg)
    | inl absent ↦ elim (Bool-cases (can_admit p.cfg.host_mode (active_sessions p.sessions))) [
      | inl free ↦
          rw (absent, free, count-decorate k p.cfg.host_mode mac (first_contact mac e p.cfg).1)
            (first_contact-count mac e p.cfg)
      | inr full ↦ rw (absent, full) (omega arith)
    ]
  ]
