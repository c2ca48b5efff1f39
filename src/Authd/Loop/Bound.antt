-- ===== src/Authd/Loop/Bound.antt =====
-- crates/authd/src/dispatch.rs: how many events one event leads to.
use usg_authenticator.Prelude.{
  ℕ, zero, suc, ◌≤◌, ◌≡◌, refl, sym, ◌∙◌, List, [], ◌∷◌, append-nil, true, Option, none, some, ok,
  arith, All, length, Result-cases, inl, inr,
}
use usg_authenticator.Pacp.Ethernet.{MacAddr}
use usg_authenticator.Pae.Effect.{Effect, to_auth_server, start_mab}
use usg_authenticator.Pae.Event.{Event, access_challenge, access_accept, access_reject}
use usg_authenticator.Pae.Port.Relays.{is_relay, is_answer, directed_relays, handle-relays}
use usg_authenticator.Pae.Port.{PortPae, DirectedEffect, handle}
use usg_authenticator.Radius.Proto.{Packet, RadiusProto}
use usg_authenticator.Radius.Reply.{parse_reply}
use usg_authenticator.Radius.Reply.Authorized.{parse_reply-ok}
use usg_authenticator.Authd.Session.{RadiusSession, handle_reply}
use usg_authenticator.Authd.Session.Replies.{handle_reply-ok}
use usg_authenticator.Authd.Deps.{Deps}
use usg_authenticator.Authd.Dispatch.{St, relay_eap, bypass}
use usg_authenticator.Authd.Loop.Steps.{drain_ok, drain_err, drain_empty}
use usg_authenticator.Authd.Loop.{perform, send_accounting, dispatch_all, drain, handle_event}

module _ (P : RadiusProto) (D : Deps P) where
  -- A follow-up, if there is one, is an answer, and only an effect that asks the server has one.
  abbrev Follows : Effect → Option Event → Type 0
  Follows x none = Unit
  Follows x (some e) = (is_answer e ≡ true) × (is_relay x ≡ true)

  parse_reply-answer :
      (reply : Packet) (e : Event) → parse_reply P reply ≡ ok e → is_answer e ≡ true
  parse_reply-answer reply (access_challenge eap) h = refl
  parse_reply-answer reply (access_accept a eap) h = refl
  parse_reply-answer reply (access_reject eap) h = refl
  parse_reply-answer reply e h = absurd (parse_reply-ok P reply e h)

  handle_reply-answer :
      (reply : Packet) (secret : List ℕ) (s : RadiusSession) (e : Event)
      → (handle_reply P D.Failure reply secret s).1 ≡ ok e
      → is_answer e ≡ true
  handle_reply-answer reply secret s e h =
      parse_reply-answer reply e (handle_reply-ok P D.Failure reply secret s e h).1

  relay_eap-answer :
      (mac : MacAddr) (eap : List ℕ) (st : St P D) (f : Option Event)
      → (relay_eap P D mac eap st).1 ≡ ok f
      → Follows (to_auth_server eap) f
  unfolding relay_eap
  relay_eap-answer mac eap st none h = tt
  relay_eap-answer mac eap st (some e) h = grind (arith, handle_reply-answer)

  bypass-answer :
      (mac : MacAddr) (st : St P D) (f : Option Event)
      → (bypass P D mac st).1 ≡ ok f
      → Follows (start_mab mac) f
  unfolding bypass
  bypass-answer mac st none h = tt
  bypass-answer mac st (some e) h = grind (arith, handle_reply-answer)

  perform-Follows :
      (target : Option MacAddr) (x : Effect) (st : St P D) (f : Option Event)
      → (perform P D target x st).1 ≡ ok f
      → Follows x f
  unfolding perform send_accounting
  perform-Follows target x st none h = tt
  perform-Follows (some mac) (to_auth_server eap) st (some e) h =
      relay_eap-answer mac eap st (some e) h
  perform-Follows target (start_mab mac) st (some e) h = bypass-answer mac st (some e) h
  perform-Follows (some mac) x st (some e) h = grind arith
  perform-Follows none x st (some e) h = grind arith

  -- Follow-ups are answers, and there are no more of them than effects that ask the server.
  pub dispatch_all-answers :
      (m : MacAddr) (ds : List DirectedEffect) (st : St P D) (q : List (MacAddr × Event))
      → (dispatch_all P D m ds st).1 ≡ ok q
      → All (λ x. is_answer x.1 ≡ true) q × (length q ≤ directed_relays ds)
  unfolding dispatch_all
  dispatch_all-answers m [] st q h = ground arith
  dispatch_all-answers m (d ∷ ds) st q h = elim (Result-cases (perform P D d.mac d.effect st).1) [
    | inr (x, failed) ↦ ground arith
    | inl (f, went) ↦
        let st' = (perform P D d.mac d.effect st).0 in
        elim (Result-cases (dispatch_all P D m ds st').1) [
          | inr (x, failed) ↦ ground arith
          | inl (more, on) ↦ ground (
            arith,
            perform-Follows d.mac d.effect st f went,
            dispatch_all-answers m ds st' more on,
          )
        ]
  ]

  no_follow :
      (m : MacAddr) (e : Event) (p : PortPae) (st : St P D) (q : List (MacAddr × Event))
      → is_answer e ≡ true
      → (dispatch_all P D m (handle p m e).1 st).1 ≡ ok q
      → q ≡ []
  no_follow m e p st [] a h = refl
  no_follow m e p st (x ∷ q) a h =
      ground (arith, handle-relays p m e, dispatch_all-answers m (handle p m e).1 st (x ∷ q) h)

  -- A queue of answers is worked off in as many steps as it is long.
  drain-answers :
      (q : List (MacAddr × Event)) (k : ℕ) (p : PortPae) (st : St P D)
      → All (λ x. is_answer x.1 ≡ true) q
      → length q ≤ k
      → drain P D k p q st ≡ drain P D (length q) p q st
  unfolding drain
  drain-answers [] k p st a h = drain_empty P D k p st ∙ sym (drain_empty P D 0 p st)
  drain-answers ((m, e) ∷ q) zero p st a h = absurd (omega arith)
  drain-answers ((m, e) ∷ q) (suc k) p st a h =
      let out = dispatch_all P D m (handle p m e).1 st in
      elim (Result-cases out.1) [
        | inr (x, failed) ↦
            drain_err P D k p m e q st failed ∙ sym (drain_err P D (length q) p m e q st failed)
        | inl (f, went) ↦
            rw
              (
                drain_ok P D k p m e q f st went,
                drain_ok P D (length q) p m e q f st went,
                no_follow m e p st f a.0 went,
                append-nil,
              )
              (drain-answers q k (handle p m e).0 out.0 a.1 (omega arith))
      ]

  -- One event and the answers that it leads to.
  settled :
      (n : ℕ) (p : PortPae) (mac : MacAddr) (e : Event) (st : St P D)
      → drain P D (suc (suc n)) p ((mac, e) ∷ []) st ≡ drain P D 2 p ((mac, e) ∷ []) st
  unfolding drain
  settled n p mac e st =
      let out = dispatch_all P D mac (handle p mac e).1 st in
      elim (Result-cases out.1) [
        | inr (x, failed) ↦
            drain_err P D (suc n) p mac e [] st failed ∙ sym (drain_err P D 1 p mac e [] st failed)
        | inl (f, went) ↦
            let (answers, few) = dispatch_all-answers mac (handle p mac e).1 st f went in
            let one : length f ≤ 1 = ground (arith, handle-relays p mac e) in
            rw (drain_ok P D (suc n) p mac e [] f st went, drain_ok P D 1 p mac e [] f st went)
              (drain-answers f (suc n) (handle p mac e).0 out.0 answers (omega arith)
                ∙ sym (drain-answers f 1 (handle p mac e).0 out.0 answers one))
      ]

  -- With any fuel from 2 on, the loop over the queue does exactly what it does with the 64 steps
  -- of handle_event: an event leads to at most one reply of the server, which leads to none, so
  -- the limit is never what ends the loop.
  pub handle_event_settles :
      (fuel : ℕ) (p : PortPae) (mac : MacAddr) (e : Event) (st : St P D)
      → 2 ≤ fuel
      → drain P D fuel p ((mac, e) ∷ []) st ≡ handle_event P D p mac e st
  unfolding handle_event
  handle_event_settles zero p mac e st h = absurd (omega arith)
  handle_event_settles (suc zero) p mac e st h = absurd (omega arith)
  handle_event_settles (suc (suc n)) p mac e st h =
      settled n p mac e st ∙ sym (settled 62 p mac e st)
