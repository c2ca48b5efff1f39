-- ===== src/Authd/Session.antt =====
-- crates/authd/src/session.rs: the RADIUS conversation of one supplicant.
pub mod Replies
pub mod Echo
use usg_authenticator.Prelude.{
  ℕ, ◌+◌, ◌%◌, List, Bool, not, ◌==◌, if◌then◌else◌, Option, none, some, Text, Result, ok, err,
  ◌>>=◌, map_err,
}
use usg_authenticator.Pae.Effect.{AcctTrigger, Authorization}
use usg_authenticator.Pae.Event.{Event, access_accept}
use usg_authenticator.Radius.Proto.{Packet, RadiusProto}
use usg_authenticator.Radius.Context.{RequestContext}
use usg_authenticator.Radius.Request.{access_request_eap, access_request_mab}
use usg_authenticator.Radius.Accounting.{accounting_packet}
use usg_authenticator.Radius.Reply.{verify_reply, extract_state, parse_reply}
use usg_authenticator.Authd.Error.{
  AuthdError, radius, no_pending_request, reply_verification_failed,
}

pub record Pending : Type 0 where
  pub identifier : ℕ
  pub request_authenticator : List ℕ

pub record RadiusSession : Type 0 where
  pub next_id : ℕ
  pub next_acct_id : ℕ
  pub last_state : Option (List ℕ)
  pub user_name : Option (List ℕ)
  pub pending : Option Pending
  pub class : Option (List ℕ)

-- `RadiusSession::new`, the default
abbrev pub fresh : RadiusSession
fresh = record {
  next_id = 0;
  next_acct_id = 0;
  last_state = none;
  user_name = none;
  pending = none;
  class = none;
}

-- The u8 identifiers wrap.
unfoldable pub next_identifier : RadiusSession → RadiusSession × ℕ
next_identifier s = (record s { next_id = (s.next_id + 1) % 256 }, s.next_id)

unfoldable pub next_accounting_identifier : RadiusSession → RadiusSession × ℕ
next_accounting_identifier s =
    (record s { next_acct_id = (s.next_acct_id + 1) % 256 }, s.next_acct_id)

-- `if let Some(id) = identity { self.user_name = Some(id) }`
abbrev pub or_keep : Option (List ℕ) → Option (List ℕ) → Option (List ℕ)
or_keep none old = old
or_keep (some id) old = some id

module _ (P : RadiusProto) (E : Type 0) where
  abbrev pub R {ℓ} : Type ℓ → Type ℓ
  R A = Result (AuthdError P.PacketError E) A

  unfoldable pub build_eap_request :
      RequestContext
      → Option (List ℕ)
      → List ℕ
      → List ℕ
      → List ℕ
      → RadiusSession
      → RadiusSession × R Packet
  unfolding next_identifier
  build_eap_request ctx identity eap request_authenticator secret s =
      let (t, identifier) =
        next_identifier (record s { user_name = or_keep identity s.user_name }) in
      let u = record t {
        pending =
            some
              (record { identifier = identifier; request_authenticator = request_authenticator });
      } in
      (
        u,
        map_err radius (
            access_request_eap P ctx identifier request_authenticator u.user_name u.last_state eap
              secret),
      )

  unfoldable pub build_mab_request :
      RequestContext → List ℕ → List ℕ → RadiusSession → RadiusSession × R Packet
  unfolding next_identifier
  build_mab_request ctx request_authenticator secret s =
      let (t, identifier) = next_identifier s in
      (
        record t {
          pending =
              some
                (record { identifier = identifier; request_authenticator = request_authenticator });
        },
        map_err radius (access_request_mab P ctx identifier request_authenticator secret),
      )

  abbrev remember_class : Event → RadiusSession → RadiusSession
  remember_class (access_accept authorization _) s = record s { class = authorization.class }
  remember_class _ s = s

  -- The event that the verified reply stands for; an unparsable reply still leaves its State.
  abbrev accept_reply : RadiusSession → R Event → RadiusSession × R Event
  accept_reply s (ok event) = (remember_class event s, ok event)
  accept_reply s (err e) = (s, err e)

  abbrev match_reply : RadiusSession → Option Pending → Packet → List ℕ → RadiusSession × R Event
  match_reply s none reply secret = (s, err no_pending_request)
  match_reply s (some p) reply secret =
      if not (reply.identifier == p.identifier)
      then (s, err reply_verification_failed)
      else if not (verify_reply P reply p.request_authenticator secret)
      then (s, err reply_verification_failed)
      else accept_reply (record s { last_state = extract_state P reply })
          (map_err radius (parse_reply P reply))

  unfoldable pub handle_reply : Packet → List ℕ → RadiusSession → RadiusSession × R Event
  handle_reply reply secret s = match_reply (record s { pending = none }) s.pending reply secret

  unfoldable pub build_accounting :
      RequestContext → ℕ → AcctTrigger → Text → List ℕ → RadiusSession → R Packet
  build_accounting ctx identifier trigger session_id secret s =
      map_err radius (accounting_packet P ctx identifier trigger session_id s.class secret)
