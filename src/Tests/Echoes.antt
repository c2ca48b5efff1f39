-- ===== src/Tests/Echoes.antt =====
-- crates/authd/src/session.rs: an identity that is sent while the State of a challenge is kept.
use usg_authenticator.Prelude.{◌≡◌, refl, [], ◌∷◌, some, Result, ok, err, arith}
use usg_authenticator.Std.Utf8.{from_utf8}
use usg_authenticator.Pacp.Ethernet.{format_mac}
use usg_authenticator.Radius.Proto.{Code, Packet}
use usg_authenticator.Radius.Context.{append_nas_attributes}
use usg_authenticator.Radius.EapMessage.{fragment_into, push_all, chunks, chunks_from}
use usg_authenticator.Radius.Sanitize.{user_name, any_refused}
use usg_authenticator.Radius.Request.{zeros, access_request_eap, seal_message_authenticator}
use usg_authenticator.Radius.Request.Echo.{Has, state_attribute}
use usg_authenticator.Authd.Error.{AuthdError}
use usg_authenticator.Authd.Session.{RadiusSession, fresh, build_eap_request}
use usg_authenticator.Authd.Session.Echo.{state_echoed}
use usg_authenticator.Tests.Replies.{codec, codec-IsLawful, context}

-- The conversation of the challenge was given up.
abbrev challenged : RadiusSession
challenged = record fresh { last_state = some (5 ∷ 5 ∷ []) }

abbrev asked : RadiusSession × Result (AuthdError Unit Unit) Packet
asked =
    build_eap_request codec Unit context (some (97 ∷ [])) (2 ∷ 1 ∷ 0 ∷ 6 ∷ 1 ∷ 97 ∷ []) zeros []
      challenged

abbrev packet_of : {E : Type 0} → Result E Packet → Packet
packet_of (ok p) = p
packet_of (err e) = codec.packet_new Code.access_request 0 []

abbrev sent : Packet
sent = packet_of asked.1

is_sent : asked ≡ (asked.0, ok sent)
unfolding build_eap_request access_request_eap append_nas_attributes fragment_into push_all
    seal_message_authenticator user_name format_mac from_utf8 any_refused chunks chunks_from
is_sent = refl

state_echoed_example :
    Has (state_attribute (5 ∷ 5 ∷ [])) sent.attributes × (asked.0.last_state ≡ some (5 ∷ 5 ∷ []))
state_echoed_example =
    state_echoed codec Unit codec-IsLawful context (some (97 ∷ [])) (2 ∷ 1 ∷ 0 ∷ 6 ∷ 1 ∷ 97 ∷ [])
      zeros [] (5 ∷ 5 ∷ []) challenged asked.0 sent (omega arith) refl is_sent
