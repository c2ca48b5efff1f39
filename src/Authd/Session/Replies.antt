-- ===== src/Authd/Session/Replies.antt =====
-- crates/authd/src/session.rs: which replies reach the state machine, and what is echoed.
use usg_authenticator.Prelude.{
  ℕ, ◌+◌, ◌%◌, ◌≡◌, List, true, none, some, ok, err, map_err, arith, Option-cases, inl, inr,
}
use usg_authenticator.Pae.Event.{Event, access_accept}
use usg_authenticator.Radius.Proto.{Packet, RadiusProto}
use usg_authenticator.Radius.Context.{RequestContext}
use usg_authenticator.Radius.Request.{access_request_eap}
use usg_authenticator.Radius.Reply.{verify_reply, extract_state, parse_reply}
use usg_authenticator.Authd.Error.{radius, no_pending_request}
use usg_authenticator.Authd.Session.{Pending, RadiusSession, build_eap_request, handle_reply}

abbrev pub KeepsClass : Event → RadiusSession → Type 0
KeepsClass (access_accept a _) t = t.class ≡ a.class
KeepsClass _ t = Unit

module _ (P : RadiusProto) (E : Type 0) where
  -- A reply becomes an event only as the answer to the outstanding request, with its identifier
  -- and with an integrity that holds against its authenticator; the event is what the reply parses
  -- to, its State is kept, and the Class of an accept is kept.
  pub handle_reply-ok :
      (reply : Packet) (secret : List ℕ) (s : RadiusSession) (e : Event)
      → (handle_reply P E reply secret s).1 ≡ ok e
      → let t = (handle_reply P E reply secret s).0 in
        ((p : Pending) × (s.pending ≡ some p)
          × (reply.identifier ≡ p.identifier)
          × (verify_reply P reply p.request_authenticator secret ≡ true))
        × (parse_reply P reply ≡ ok e)
        × (t.last_state ≡ extract_state P reply)
        × KeepsClass e t
  unfolding handle_reply
  handle_reply-ok reply secret s e h = elim (Option-cases s.pending) [
    | inl none' ↦ ground arith
    | inr (p, out) ↦
        ((p, out, ground arith, ground arith), ground arith, ground arith, ground arith)
  ]

  -- A request takes one reply at most: after a reply, good or bad, a second one is refused.
  pub handle_reply_twice :
      (first second : Packet) (secret : List ℕ) (s : RadiusSession)
      → let t = (handle_reply P E first secret s).0 in
        handle_reply P E second secret t ≡ (t, err no_pending_request)
  unfolding handle_reply
  handle_reply_twice first second secret s = ground arith

  -- After an accepted reply to a request that named an identity, the next request names that
  -- identity again, echoes the State of the reply, and has the next identifier modulo 256.
  pub challenge_round :
      (ctx : RequestContext) (id eap eap' auth auth' secret : List ℕ) (s : RadiusSession)
      (reply : Packet) {e : Event}
      → let s1 = (build_eap_request P E ctx (some id) eap auth secret s).0 in
        let (s2, r) = handle_reply P E reply secret s1 in
        r ≡ ok e
        → (build_eap_request P E ctx none eap' auth' secret s2).1
          ≡ map_err radius (
              access_request_eap P ctx
                ((s.next_id + 1) % 256)
                auth'
                (some id)
                (extract_state P reply)
                eap'
                secret)
  unfolding build_eap_request handle_reply
  challenge_round ctx id eap eap' auth auth' secret s reply h = ground arith
