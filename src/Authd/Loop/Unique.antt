-- ===== src/Authd/Loop/Unique.antt =====
-- crates/authd/src/dispatch.rs: the Acct-Session-Ids of all stations, and the counter that numbers them.
use usg_authenticator.Prelude.{
  sym, ◌⊎◌, ℕ, zero, suc, ◌+◌, ◌^◌, ◌<◌, ◌≤◌, ◌≡◌, refl, List, [], ◌∷◌, ◌++◌, Option, none, some,
  arith, Result-cases, inl, inr, if◌then◌else◌, false,
}
use usg_authenticator.Pacp.Ethernet.{MacAddr, mac_eq_iff}
use usg_authenticator.Pae.Effect.{
  AcctTrigger, Effect, to_auth_server, start_mab, set_authorization, accounting,
}
use usg_authenticator.Pae.Event.{Event}
use usg_authenticator.Pae.Port.{DirectedEffect, PortPae, handle}
use usg_authenticator.Pae.Port.Accounts.{is_accounting, directed_accounts, handle-accounts}
use usg_authenticator.Radius.Proto.{RadiusProto}
use usg_authenticator.Authd.Deps.{Deps}
use usg_authenticator.Authd.Dispatch.{
  or_default, SessionState, Sessions, Orchestrator, St, get, put, session_of, acct_id_for,
  relay_eap, bypass,
}
use usg_authenticator.Authd.Dispatch.AcctIds.{Given, get-put_other, acct_id_for-Given}
use usg_authenticator.Authd.Loop.{perform, send_accounting, dispatch_all, drain, handle_event}
use usg_authenticator.Authd.Loop.Steps.{drain_ok, drain_err, drain_empty, drain_spent}
use usg_authenticator.Authd.Loop.Bound.{handle_event_settles}

-- Nothing that the ids are about has changed.
abbrev Same : Orchestrator → Orchestrator → Type 0
Same o o' =
    ((m : MacAddr) → (session_of o' m).acct_id ≡ (session_of o m).acct_id)
    × (o'.acct_counter ≡ o.acct_counter)
    × (o'.port ≡ o.port)

Same-Given : (o o' : Orchestrator) → Same o o' → Given o → Given o'
Same-Given o o' (ids, counter, port) g = record {
  from_counter = λ mac id h. rw (counter, port) (g.from_counter mac id (rw (ids mac) at h));
  unique = λ a b id ha hb. g.unique a b id (rw (ids a) at ha) (rw (ids b) at hb);
}

put-same :
    (m mac : MacAddr) (t : SessionState) (ss : Sessions)
    → t.acct_id ≡ (or_default (get mac ss)).acct_id
    → (or_default (get m (put mac t ss))).acct_id ≡ (or_default (get m ss)).acct_id
put-same m mac t ss same = ground (arith, get-put_other m mac t ss, mac_eq_iff mac m)

-- The counter has given at most `k` ids.
abbrev pub Counted : ℕ → Orchestrator → Type 0
Counted k o = Given o × (o.acct_counter ≤ k)

acct_id_for-counter :
    (o : Orchestrator) (mac : MacAddr) → (acct_id_for o mac).0.acct_counter ≤ o.acct_counter + 1
unfolding acct_id_for
acct_id_for-counter o mac = ground arith

acct_id_for-Counted :
    (k : ℕ) (o : Orchestrator) (mac : MacAddr)
    → suc k < 2 ^ 64
    → Counted k o
    → Counted (suc k) (acct_id_for o mac).0
acct_id_for-Counted k o mac room (g, le) =
    ((acct_id_for-Given o mac (omega arith) g).0, omega (arith, acct_id_for-counter o mac))

module _ (P : RadiusProto) (D : Deps P) where
  relay_eap-Same :
      (mac : MacAddr) (eap : List ℕ) (st : St P D) → Same st.orch (relay_eap P D mac eap st).0.orch
  unfolding relay_eap
  relay_eap-Same mac eap st = (λ m. grind (arith, put-same), grind arith, grind arith)

  bypass-Same : (mac : MacAddr) (st : St P D) → Same st.orch (bypass P D mac st).0.orch
  unfolding bypass
  bypass-Same mac st = (λ m. grind (arith, put-same), grind arith, grind arith)

  other-Same :
      (target : Option MacAddr) (e : Effect) (st : St P D)
      → is_accounting e ≡ false
      → Same st.orch (perform P D target e st).0.orch
  unfolding perform
  other-Same (some mac) (to_auth_server eap) st h = relay_eap-Same mac eap st
  other-Same (some mac) (start_mab n) st h = bypass-Same n st
  other-Same none (start_mab n) st h = bypass-Same n st
  other-Same (some mac) (set_authorization a) st h =
      (λ m. grind (arith, put-same), grind arith, grind arith)
  other-Same (some mac) (accounting trigger) st h = absurd (ground (arith, h))
  other-Same (some mac) e st h = (λ m. grind arith, grind arith, grind arith)
  other-Same none e st h = (λ m. grind arith, grind arith, grind arith)

  accounting-Same :
      (mac : MacAddr) (trigger : AcctTrigger) (st : St P D)
      → Same (acct_id_for st.orch mac).0 (send_accounting P D mac trigger st).0.orch
  unfolding send_accounting
  accounting-Same mac trigger st = (λ m. grind (arith, put-same), grind arith, grind arith)

  abbrev cost : Effect → ℕ
  cost e = if is_accounting e then 1 else 0

  Counted-more : (j k : ℕ) (o : Orchestrator) → j ≤ k → Counted j o → Counted k o
  Counted-more j k o le (g, h) = (g, omega arith)

  Same-Counted : (k : ℕ) (o o' : Orchestrator) → Same o o' → Counted k o → Counted k o'
  Same-Counted k o o' same (g, le) = (Same-Given o o' same g, omega (arith, same.1))

  send_accounting-Counted :
      (k : ℕ) (mac : MacAddr) (trigger : AcctTrigger) (st : St P D)
      → suc k < 2 ^ 64
      → Counted k st.orch
      → Counted (suc k) (send_accounting P D mac trigger st).0.orch
  send_accounting-Counted k mac trigger st room c =
      Same-Counted (suc k) (acct_id_for st.orch mac).0 (send_accounting P D mac trigger st).0.orch
        (accounting-Same mac trigger st) (acct_id_for-Counted k st.orch mac room c)

  accounting-Counted :
      (k : ℕ) (target : Option MacAddr) (trigger : AcctTrigger) (st : St P D)
      → suc k < 2 ^ 64
      → Counted k st.orch
      → Counted (suc k) (perform P D target (accounting trigger) st).0.orch
  unfolding perform
  accounting-Counted k (some mac) trigger st room c =
      send_accounting-Counted k mac trigger st room c
  accounting-Counted k none trigger st room c = Counted-more k (suc k) st.orch (omega arith) c

  perform-Counted :
      (k : ℕ) (target : Option MacAddr) (e : Effect) (st : St P D)
      → k + cost e < 2 ^ 64
      → Counted k st.orch
      → Counted (k + cost e) (perform P D target e st).0.orch
  perform-Counted k target (accounting trigger) st room c =
      Counted-more (suc k) (k + 1) _ (omega arith)
        (accounting-Counted k target trigger st (omega arith) c)
  perform-Counted k target e st room c =
      Counted-more k (k + 0) _ (omega arith)
        (Same-Counted k st.orch (perform P D target e st).0.orch (other-Same target e st refl) c)

  -- An error ends the effects where it occurs.
  dispatch_all_next :
      (m : MacAddr) (d : DirectedEffect) (ds : List DirectedEffect) (st : St P D)
      → let first = (perform P D d.mac d.effect st).0 in
        ((dispatch_all P D m (d ∷ ds) st).0 ≡ first)
        ⊎ ((dispatch_all P D m (d ∷ ds) st).0 ≡ (dispatch_all P D m ds first).0)
  unfolding dispatch_all
  dispatch_all_next m d ds st = elim (Result-cases (perform P D d.mac d.effect st).1) [
    | inl (f, went) ↦
        elim (Result-cases (dispatch_all P D m ds (perform P D d.mac d.effect st).0).1) [
          | inl (more, on) ↦ inr (ground arith)
          | inr (x, failed) ↦ inr (ground arith)
        ]
    | inr (x, failed) ↦ inl (ground arith)
  ]

  dispatch_all-Counted :
      (k : ℕ) (m : MacAddr) (ds : List DirectedEffect) (st : St P D)
      → k + directed_accounts ds < 2 ^ 64
      → Counted k st.orch
      → Counted (k + directed_accounts ds) (dispatch_all P D m ds st).0.orch
  unfolding dispatch_all
  dispatch_all-Counted k m [] st room c = Counted-more k (k + 0) st.orch (omega arith) c
  dispatch_all-Counted k m (d ∷ ds) st room c =
      let first = (perform P D d.mac d.effect st).0 in
      let all = k + directed_accounts (d ∷ ds) in
      let j = k + cost d.effect in
      let split : j + directed_accounts ds ≡ all = ground arith in
      let c' = perform-Counted k d.mac d.effect st (omega (arith, split)) c in
      elim (dispatch_all_next m d ds st) [
        | inl stopped ↦ rw stopped (Counted-more j all first.orch (omega (arith, split)) c')
        | inr on ↦ rw on (
            Counted-more (j + directed_accounts ds) all _ (omega (arith, split))
              (dispatch_all-Counted j m ds first (omega (arith, split)) c'))
      ]

  event-Counted :
      (k : ℕ) (p : PortPae) (m : MacAddr) (e : Event) (st : St P D)
      → suc k < 2 ^ 64
      → Counted k st.orch
      → Counted (suc k) (dispatch_all P D m (handle p m e).1 st).0.orch
  event-Counted k p m e st room c =
      let few = handle-accounts p m e in
      let n = directed_accounts (handle p m e).1 in
      Counted-more (k + n) (suc k) _ (omega (arith, few))
        (dispatch_all-Counted k m (handle p m e).1 st (omega (arith, few)) c)

  drain-Counted :
      (fuel k : ℕ) (p : PortPae) (q : List (MacAddr × Event)) (st : St P D)
      → k + fuel < 2 ^ 64
      → Counted k st.orch
      → Counted (k + fuel) (drain P D fuel p q st).1.0.orch
  drain-Counted zero k p q st room c =
      rw (drain_spent P D p q st) (Counted-more k (k + 0) st.orch (omega arith) c)
  drain-Counted (suc fuel) k p [] st room c =
      rw (drain_empty P D (suc fuel) p st) (Counted-more k (k + suc fuel) st.orch (omega arith) c)
  drain-Counted (suc fuel) k p ((m, e) ∷ q) st room c =
      let out = dispatch_all P D m (handle p m e).1 st in
      let c' = event-Counted k p m e st (omega arith) c in
      elim (Result-cases out.1) [
        | inl (f, went) ↦ rw (drain_ok P D fuel p m e q f st went) (
            Counted-more (suc k + fuel) (k + suc fuel) _ (omega arith)
              (drain-Counted fuel (suc k) (handle p m e).0 (q ++ f) out.0 (omega arith) c'))
        | inr (x, failed) ↦
            rw (drain_err P D fuel p m e q st failed)
              (Counted-more (suc k) (k + suc fuel) out.0.orch (omega arith) c')
      ]

  -- One event has two stations at most start or stop their accounting.
  pub handle_event-Counted :
      (k : ℕ) (p : PortPae) (m : MacAddr) (e : Event) (st : St P D)
      → k + 2 < 2 ^ 64
      → Counted k st.orch
      → Counted (k + 2) (handle_event P D p m e st).1.0.orch
  handle_event-Counted k p m e st room c =
      rw (sym (handle_event_settles P D 2 p m e st (omega arith)))
        (drain-Counted 2 k p ((m, e) ∷ []) st room c)
