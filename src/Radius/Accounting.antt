-- ===== src/Radius/Accounting.antt =====
-- crates/radius-client/src/accounting.rs: `Accounting-Request` for the start and the stop of a session.
use usg_authenticator.Prelude.{ℕ, List, Text, Option, none, some, ok, ◌>>=◌}
use usg_authenticator.Pae.Effect.{AcctTrigger, TerminateCause}
use usg_authenticator.Radius.Proto.{
  AcctStatusType, AcctTerminateCause, acct_status_type, acct_session_id, class,
  acct_terminate_cause, accounting_request, Packet, RadiusProto,
}
use usg_authenticator.Radius.EapMessage.{R}
use usg_authenticator.Radius.Context.{RequestContext, push, append_nas_attributes}
use usg_authenticator.Radius.Request.{zeros}

unfoldable pub terminate_cause : TerminateCause → AcctTerminateCause
terminate_cause TerminateCause.supplicant_logoff = AcctTerminateCause.user_request
terminate_cause TerminateCause.port_link_down = AcctTerminateCause.lost_carrier
terminate_cause TerminateCause.session_timeout = AcctTerminateCause.session_timeout
terminate_cause TerminateCause.admin_reset = AcctTerminateCause.admin_reset
terminate_cause TerminateCause.reauth_failure = AcctTerminateCause.nas_request

abbrev status_of : AcctTrigger → AcctStatusType
status_of AcctTrigger.start = AcctStatusType.start
status_of (AcctTrigger.stop _) = AcctStatusType.stop

module _ (P : RadiusProto) where
  abbrev push_class : Option (List ℕ) → Packet → R P Packet
  push_class none packet = ok packet
  push_class (some c) packet = push P packet (P.attribute_new (P.type_as_u8 class) c)

  abbrev push_cause : AcctTrigger → Packet → R P Packet
  push_cause AcctTrigger.start packet = ok packet
  push_cause (AcctTrigger.stop cause) packet = push P packet (
      P.attribute_integer (P.type_as_u8 acct_terminate_cause)
        (P.cause_as_u32 (terminate_cause cause)))

  unfoldable pub accounting_packet :
      RequestContext → ℕ → AcctTrigger → Text → Option (List ℕ) → List ℕ → R P Packet
  unfolding terminate_cause
  accounting_packet ctx identifier trigger session_id cls secret = do
    p1 ←
        push P (P.packet_new accounting_request identifier zeros) (
          P.attribute_integer (P.type_as_u8 acct_status_type) (P.status_as_u32 (status_of trigger)))
    p2 ← push P p1 (P.attribute_string (P.type_as_u8 acct_session_id) session_id)
    p3 ← append_nas_attributes P ctx p2
    p4 ← push_class cls p3
    p5 ← push_cause trigger p4
    ok (record p5 { authenticator = P.calculate_accounting_request_authenticator p5 secret })
