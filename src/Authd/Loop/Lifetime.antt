-- ===== src/Authd/Loop/Lifetime.antt =====
-- crates/authd/src/dispatch.rs: the Session-Timeout that the server grants, and its timer.
use usg_authenticator.Prelude.{
  ap, ◌∙◌, ℕ, ◌≡◌, refl, List, [], ◌∷◌, Option, none, some, ok, arith, All, ◌&&◌, if◌then◌else◌,
}
use usg_authenticator.Pacp.Ethernet.{MacAddr, mac_eq_iff}
use usg_authenticator.Pae.Config.{TimerKind, multi_host}
use usg_authenticator.Pae.Effect.{
  Authorization, AcctTrigger, authorized, Effect, tx_eap_to_supplicant, to_auth_server, start_mab,
  set_authorization, arm_timer, cancel_timer, cancel_all_timers, accounting,
}
use usg_authenticator.Pae.Event.{Event}
use usg_authenticator.Pae.Port.{
  PortPae, DirectedEffect, handle, is_set_authorization, is_multi_host,
}
use usg_authenticator.Pae.Port.Isolation.{handle_directs}
use usg_authenticator.Pae.Port.WellFormed.{handle-cfg}
use usg_authenticator.Radius.Proto.{RadiusProto}
use usg_authenticator.Authd.Deps.{Deps}
use usg_authenticator.Authd.Dispatch.{
  SessionState, Sessions, St, get, put, or_default, acct_id_for, relay_eap, bypass, timer_duration,
}
use usg_authenticator.Authd.Loop.Steps.{drain_inv}
use usg_authenticator.Authd.Loop.{perform, send_accounting, dispatch_all, drain, handle_event}

-- No station's Session-Timeout is known.
abbrev pub NoLifetimes : Sessions → Type 0
NoLifetimes [] = Unit
NoLifetimes ((m, s) ∷ rest) = (s.session_timeout ≡ none) × NoLifetimes rest

put-NoLifetimes :
    (mac : MacAddr) (t : SessionState) (ss : Sessions)
    → t.session_timeout ≡ none
    → NoLifetimes ss
    → NoLifetimes (put mac t ss)
unfolding put
put-NoLifetimes mac t [] e h = (e, tt)
put-NoLifetimes mac t ((m, s) ∷ rest) e h = ground (arith, put-NoLifetimes mac t rest)

get-NoLifetimes :
    (mac : MacAddr) (ss : Sessions)
    → NoLifetimes ss
    → (or_default (get mac ss)).session_timeout ≡ none
unfolding get
get-NoLifetimes mac [] h = refl
get-NoLifetimes mac ((m, s) ∷ rest) h = ground (arith, get-NoLifetimes mac rest)

get-put : (mac : MacAddr) (t : SessionState) (ss : Sessions) → get mac (put mac t ss) ≡ some t
unfolding get put
get-put mac t [] = ground (arith, mac_eq_iff mac mac)
get-put mac t ((m, s) ∷ rest) = ground (arith, mac_eq_iff m mac, get-put mac t rest)

module _ (P : RadiusProto) (D : Deps P) where
  abbrev pub Ignorant : St P D → Type 0
  Ignorant st = NoLifetimes st.orch.sessions

  relay_eap-Ignorant :
      (mac : MacAddr) (eap : List ℕ) (st : St P D)
      → Ignorant st
      → Ignorant (relay_eap P D mac eap st).0
  unfolding relay_eap
  relay_eap-Ignorant mac eap st h = grind (arith, put-NoLifetimes, get-NoLifetimes)

  bypass-Ignorant : (mac : MacAddr) (st : St P D) → Ignorant st → Ignorant (bypass P D mac st).0
  unfolding bypass
  bypass-Ignorant mac st h = grind (arith, put-NoLifetimes, get-NoLifetimes)

  send_accounting-Ignorant :
      (mac : MacAddr) (trigger : AcctTrigger) (st : St P D)
      → Ignorant st
      → Ignorant (send_accounting P D mac trigger st).0
  unfolding send_accounting acct_id_for
  send_accounting-Ignorant mac trigger st h = grind (arith, put-NoLifetimes, get-NoLifetimes)

  abbrev target : MacAddr → Effect → Option MacAddr
  target mac e = if is_set_authorization e then none else some mac

  perform-Ignorant :
      (mac : MacAddr) (e : Effect) (st : St P D)
      → Ignorant st
      → Ignorant (perform P D (target mac e) e st).0
  unfolding perform
  perform-Ignorant mac (tx_eap_to_supplicant eap) st h = grind arith
  perform-Ignorant mac (to_auth_server eap) st h = relay_eap-Ignorant mac eap st h
  perform-Ignorant mac (start_mab m) st h = bypass-Ignorant m st h
  perform-Ignorant mac (set_authorization auth) st h = grind arith
  perform-Ignorant mac (arm_timer kind) st h = grind arith
  perform-Ignorant mac (cancel_timer kind) st h = h
  perform-Ignorant mac cancel_all_timers st h = h
  perform-Ignorant mac (accounting trigger) st h = send_accounting-Ignorant mac trigger st h

  abbrev Targets : MacAddr → List DirectedEffect → Type 0
  Targets mac [] = Unit
  Targets mac (d ∷ ds) = (d.mac ≡ target mac d.effect) × Targets mac ds

  dispatch_all-Ignorant :
      (mac : MacAddr) (ds : List DirectedEffect) (st : St P D)
      → Targets mac ds
      → Ignorant st
      → Ignorant (dispatch_all P D mac ds st).0
  unfolding dispatch_all
  dispatch_all-Ignorant mac [] st t h = h
  dispatch_all-Ignorant mac (d ∷ ds) st t h =
      let first : Ignorant (perform P D d.mac d.effect st).0 =
        rw t.0 (perform-Ignorant mac d.effect st h) in
      grind (arith, dispatch_all-Ignorant mac ds)

  handle-Targets :
      (p : PortPae) (mac : MacAddr) (e : Event)
      → p.cfg.host_mode ≡ multi_host
      → Targets mac (handle p mac e).1
  handle-Targets p mac e multi = shared (handle p mac e).1 (handle_directs p mac e)
    where
      shared :
          (ds : List DirectedEffect)
          → All
              (λ d. d.mac ≡ (
                if is_multi_host p.cfg.host_mode && is_set_authorization d.effect
                then none
                else some mac))
              ds
          → Targets mac ds
      shared [] a = tt
      shared (d ∷ ds) a = (rw multi at a.0, shared ds a.1)

  arm_unknown :
      (mac : MacAddr) (st : St P D)
      → Ignorant st
      → perform P D (some mac) (arm_timer TimerKind.session_timeout) st ≡ (st, ok none)
  unfolding perform timer_duration
  arm_unknown mac st h = rw (get-NoLifetimes mac st.orch.sessions h) refl

  -- On a multi-host port where no Session-Timeout is known, none is known after any event, and a
  -- request to arm its timer does nothing and succeeds.
  pub session_timeout_never_armed :
      (p : PortPae) (mac m : MacAddr) (event : Event) (st : St P D)
      → p.cfg.host_mode ≡ multi_host
      → Ignorant st
      → let after = (handle_event P D p mac event st).1.0 in
        Ignorant after
        × (perform P D (some m) (arm_timer TimerKind.session_timeout) after ≡ (after, ok none))
  unfolding handle_event
  session_timeout_never_armed p mac m event st multi h =
      let known =
        (drain_inv P D (λ q. q.cfg.host_mode ≡ multi_host) Ignorant
          (λ q n e i. ap (λ c. c.host_mode) (handle-cfg q n e) ∙ i)
          (λ q n e t i k. dispatch_all-Ignorant n (handle q n e).1 t (handle-Targets q n e i) k) 64
          p ((mac, event) ∷ []) st multi h).1 in
      (known, arm_unknown m (drain P D 64 p ((mac, event) ∷ []) st).1.0 known)

  -- A grant that is directed at a station, and that the enforcement accepts, is followed by a
  -- session timer of the granted length, if it has one.
  pub session_timeout_armed :
      (mac : MacAddr) (a : Authorization) (limit : ℕ) (st : St P D)
      → a.session_timeout ≡ some limit
      → let granted = (perform P D (some mac) (set_authorization (authorized a)) st).0 in
        (perform P D (some mac) (arm_timer TimerKind.session_timeout) granted).0
        ≡ record granted { world = D.arm mac TimerKind.session_timeout limit granted.world }
  unfolding perform timer_duration
  session_timeout_armed mac a limit st has =
      let known : SessionState = record (or_default (get mac st.orch.sessions)) {
        session_timeout = a.session_timeout;
      } in
      ground (arith, get-put mac known st.orch.sessions)
