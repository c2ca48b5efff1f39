-- ===== src/Authd/Loop/AcctIds.antt =====
-- crates/authd/src/dispatch.rs: the Acct-Session-Id of a station, once it has one.
use usg_authenticator.Prelude.{
  ℕ, ◌≡◌, List, [], ◌∷◌, Option, none, some, Text, arith, Option-cases, inl, inr,
}
use usg_authenticator.Pacp.Ethernet.{MacAddr, mac_eq_iff}
use usg_authenticator.Pae.Effect.{
  AcctTrigger, Effect, tx_eap_to_supplicant, to_auth_server, start_mab, set_authorization,
  arm_timer, cancel_timer, cancel_all_timers, accounting,
}
use usg_authenticator.Pae.Port.{DirectedEffect}
use usg_authenticator.Radius.Proto.{RadiusProto}
use usg_authenticator.Authd.Deps.{Deps}
use usg_authenticator.Authd.Dispatch.{
  or_default, SessionState, Sessions, Orchestrator, St, get, put, session_of, acct_id_for,
  relay_eap, bypass,
}
use usg_authenticator.Authd.Dispatch.AcctIds.{get-put_other}
use usg_authenticator.Authd.Loop.{perform, send_accounting, dispatch_all}

module _ (m : MacAddr) (id : Text) where
  abbrev pub Numbered : Sessions → Type 0
  Numbered ss = (◌≡◌ {A = Option Text} (or_default (get m ss)).acct_id (some id))

  -- What is written back of a station keeps its id.
  put-Numbered :
      (mac : MacAddr) (t : SessionState) (ss : Sessions)
      → t.acct_id ≡ (or_default (get mac ss)).acct_id
      → Numbered ss
      → Numbered (put mac t ss)
  put-Numbered mac t ss same h = ground (arith, get-put_other m mac t ss, mac_eq_iff mac m)

  acct_id_for-Numbered :
      (o : Orchestrator) (mac : MacAddr)
      → Numbered o.sessions
      → Numbered (acct_id_for o mac).0.sessions
  unfolding acct_id_for
  acct_id_for-Numbered o mac h = elim (Option-cases (session_of o mac).acct_id) [
    | inr (known, has) ↦ rw (has, acct_id_for) h
    | inl nothing ↦ grind (arith, get-put_other, mac_eq_iff mac m)
  ]

  module _ (P : RadiusProto) (D : Deps P) where
    abbrev pub Knows : St P D → Type 0
    Knows st = Numbered st.orch.sessions

    relay_eap-Knows :
        (mac : MacAddr) (eap : List ℕ) (st : St P D) → Knows st → Knows (relay_eap P D mac eap st).0
    unfolding relay_eap
    relay_eap-Knows mac eap st h = grind (arith, put-Numbered)

    bypass-Knows : (mac : MacAddr) (st : St P D) → Knows st → Knows (bypass P D mac st).0
    unfolding bypass
    bypass-Knows mac st h = grind (arith, put-Numbered)

    send_accounting-Knows :
        (mac : MacAddr) (trigger : AcctTrigger) (st : St P D)
        → Knows st
        → Knows (send_accounting P D mac trigger st).0
    unfolding send_accounting
    send_accounting-Knows mac trigger st h = grind (arith, put-Numbered, acct_id_for-Numbered)

    perform-Knows :
        (target : Option MacAddr) (e : Effect) (st : St P D)
        → Knows st
        → Knows (perform P D target e st).0
    unfolding perform
    perform-Knows (some mac) (tx_eap_to_supplicant eap) st h = grind arith
    perform-Knows (some mac) (to_auth_server eap) st h = relay_eap-Knows mac eap st h
    perform-Knows (some mac) (start_mab n) st h = bypass-Knows n st h
    perform-Knows none (start_mab n) st h = bypass-Knows n st h
    perform-Knows (some mac) (set_authorization a) st h = grind (arith, put-Numbered)
    perform-Knows (some mac) (arm_timer k) st h = grind arith
    perform-Knows (some mac) (cancel_timer k) st h = h
    perform-Knows (some mac) cancel_all_timers st h = h
    perform-Knows (some mac) (accounting trigger) st h = send_accounting-Knows mac trigger st h
    perform-Knows none e st h = grind arith

    pub dispatch_all-Knows :
        (mac : MacAddr) (ds : List DirectedEffect) (st : St P D)
        → Knows st
        → Knows (dispatch_all P D mac ds st).0
    unfolding dispatch_all
    dispatch_all-Knows mac [] st h = h
    dispatch_all-Knows mac (d ∷ ds) st h =
        let first = perform-Knows d.mac d.effect st h in grind (arith, dispatch_all-Knows mac ds)
