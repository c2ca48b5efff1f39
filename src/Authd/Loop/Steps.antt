-- ===== src/Authd/Loop/Steps.antt =====
-- crates/authd/src/dispatch.rs: one round of the loop of `handle_event`.
use usg_authenticator.Prelude.{
  Option, All, All-append, arith, ℕ, zero, suc, ◌≡◌, refl, List, [], ◌∷◌, ◌++◌, ok, err,
  Result-cases, inl, inr,
}
use usg_authenticator.Pacp.Ethernet.{MacAddr}
use usg_authenticator.Pae.Event.{Event}
use usg_authenticator.Pae.Port.{DirectedEffect, PortPae, handle}
use usg_authenticator.Radius.Proto.{RadiusProto}
use usg_authenticator.Authd.Deps.{Deps}
use usg_authenticator.Authd.Dispatch.{St, Err}
use usg_authenticator.Authd.Loop.{perform, dispatch_all, drain}

module _ (P : RadiusProto) (D : Deps P) where
  pub dispatch_all_none : (m : MacAddr) (st : St P D) → dispatch_all P D m [] st ≡ (st, ok [])
  unfolding dispatch_all
  dispatch_all_none m st = refl

  -- Effects that all succeed are the first and then the others.
  pub dispatch_all_first :
      (m : MacAddr) (d : DirectedEffect) (ds : List DirectedEffect) (st : St P D)
      (q : List (MacAddr × Event))
      → (dispatch_all P D m (d ∷ ds) st).1 ≡ ok q
      → let first = perform P D d.mac d.effect st in
        ((f : Option Event) × (first.1 ≡ ok f))
        × ((more : List (MacAddr × Event)) × ((dispatch_all P D m ds first.0).1 ≡ ok more))
        × ((dispatch_all P D m (d ∷ ds) st).0 ≡ (dispatch_all P D m ds first.0).0)
  unfolding dispatch_all
  dispatch_all_first m d ds st q r = elim (Result-cases (perform P D d.mac d.effect st).1) [
    | inr (x, failed) ↦ ground arith
    | inl (f, went) ↦
        elim (Result-cases (dispatch_all P D m ds (perform P D d.mac d.effect st).0).1) [
          | inr (x, failed) ↦ ground arith
          | inl (more, on) ↦ ((f, went), (more, on), ground arith)
        ]
  ]

  pub drain_ok :
      (k : ℕ) (p : PortPae) (m : MacAddr) (e : Event) (q f : List (MacAddr × Event)) (st : St P D)
      → (dispatch_all P D m (handle p m e).1 st).1 ≡ ok f
      → drain P D (suc k) p ((m, e) ∷ q) st
        ≡ drain P D k (handle p m e).0 (q ++ f) (dispatch_all P D m (handle p m e).1 st).0
  unfolding drain
  drain_ok k p m e q f st h = rw (h, drain) refl

  pub drain_err :
      (k : ℕ) (p : PortPae) (m : MacAddr) (e : Event) (q : List (MacAddr × Event)) (st : St P D)
      {x : Err P D}
      → (dispatch_all P D m (handle p m e).1 st).1 ≡ err x
      → drain P D (suc k) p ((m, e) ∷ q) st
        ≡ ((handle p m e).0, ((dispatch_all P D m (handle p m e).1 st).0, err x))
  unfolding drain
  drain_err k p m e q st h = rw (h, drain) refl

  pub drain_empty : (k : ℕ) (p : PortPae) (st : St P D) → drain P D k p [] st ≡ (p, (st, ok tt))
  unfolding drain
  drain_empty zero p st = refl
  drain_empty (suc k) p st = refl

  pub drain_spent :
      (p : PortPae) (q : List (MacAddr × Event)) (st : St P D)
      → drain P D zero p q st ≡ (p, (st, ok tt))
  unfolding drain
  drain_spent p [] st = refl
  drain_spent p (x ∷ q) st = refl

  -- What every event that the port handles keeps, and the effects of each event keep, holds at the
  -- end, whether the loop ends or fails.
  pub drain_inv {ℓ κ} :
      (I : PortPae → Type ℓ) (S : St P D → Type κ)
      → ((p : PortPae) (m : MacAddr) (e : Event) → I p → I (handle p m e).0)
      → ((p : PortPae) (m : MacAddr) (e : Event) (st : St P D)
          → I p
          → S st
          → S (dispatch_all P D m (handle p m e).1 st).0)
      → (k : ℕ) (p : PortPae) (q : List (MacAddr × Event)) (st : St P D) → I p
      → S st
      → I (drain P D k p q st).0 × S (drain P D k p q st).1.0
  drain_inv I S ports states zero p q st i j = rw (drain_spent p q st) (i, j)
  drain_inv I S ports states (suc k) p [] st i j = rw (drain_empty (suc k) p st) (i, j)
  drain_inv I S ports states (suc k) p ((m, e) ∷ q) st i j =
      elim (Result-cases (dispatch_all P D m (handle p m e).1 st).1) [
        | inl (f, went) ↦ rw (drain_ok k p m e q f st went) (
            drain_inv I S ports states k (handle p m e).0 (q ++ f)
              (dispatch_all P D m (handle p m e).1 st).0 (ports p m e i) (states p m e st i j))
        | inr (x, failed) ↦ rw (drain_err k p m e q st failed) (ports p m e i, states p m e st i j)
      ]

  -- What one good event whose effects succeed keeps of the port and the state together, where its
  -- follow-ups are good events too, a loop over good events that succeeds keeps.
  pub drain_both {ℓ} :
      (R : PortPae → St P D → Type ℓ) (G : MacAddr × Event → Type 0)
      → ((p : PortPae) (m : MacAddr) (e : Event) (st : St P D) (f : List (MacAddr × Event))
          → G (m, e)
          → (dispatch_all P D m (handle p m e).1 st).1 ≡ ok f
          → R p st
          → All G f × R (handle p m e).0 (dispatch_all P D m (handle p m e).1 st).0)
      → (k : ℕ) (p : PortPae) (q : List (MacAddr × Event)) (st : St P D) → All G q
      → R p st
      → (drain P D k p q st).1.1 ≡ ok tt
      → R (drain P D k p q st).0 (drain P D k p q st).1.0
  drain_both R G one zero p q st good j r = rw (drain_spent p q st) j
  drain_both R G one (suc k) p [] st good j r = rw (drain_empty (suc k) p st) j
  drain_both R G one (suc k) p ((m, e) ∷ q) st good j r =
      let out = dispatch_all P D m (handle p m e).1 st in
      elim (Result-cases out.1) [
        | inl (f, went) ↦
            let (follow, kept) = one p m e st f good.0 went j in
            let next = drain_ok k p m e q f st went in
            rw next (
              drain_both R G one k (handle p m e).0 (q ++ f) out.0 (All-append G q f good.1 follow)
                kept (rw next at r))
        | inr (x, failed) ↦ absurd (ground (arith, drain_err k p m e q st failed))
      ]
