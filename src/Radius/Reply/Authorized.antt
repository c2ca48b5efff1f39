-- ===== src/Radius/Reply/Authorized.antt =====
-- crates/radius-client/src/reply.rs: which replies authorize, and to which VLAN.
use usg_authenticator.Prelude.{ℕ, ◌≡◌, ◌≢◌, [], Option, none, some, Text, ok, arith}
use usg_authenticator.Std.Utf8.{from_utf8_lossy}
use usg_authenticator.Pae.Event.{Event}
use usg_authenticator.Radius.Consts.{
  tunnel_medium_802, tunnel_medium_type, tunnel_type, tunnel_type_vlan,
}
use usg_authenticator.Radius.Proto.{
  access_accept, access_reject, access_challenge, Attribute, Packet, RadiusProto,
}
use usg_authenticator.Radius.EapMessage.{reassemble}
use usg_authenticator.Radius.Reply.{
  parse_authorization, parse_reply, group_body, read_tagged_u32, non_empty,
}

module _ (P : RadiusProto) where
  -- The value of a tagged integer attribute of the reply.
  abbrev pub Tagged : Packet → ℕ → ℕ → Type 0
  Tagged reply t n =
      (a : Attribute) × (P.find_attribute reply t ≡ some a) × (read_tagged_u32 a.value ≡ some n)

  -- What the group id of a reply grants, if there is one.
  abbrev pub GrantsVlan : Packet → Option Attribute → Option Text → Type 0
  GrantsVlan reply none vlan = vlan ≡ none
  GrantsVlan reply (some g) vlan =
      (group_body g.value ≢ [])
      × (vlan ≡ some (from_utf8_lossy (group_body g.value)))
      × Tagged reply tunnel_type tunnel_type_vlan
      × Tagged reply tunnel_medium_type tunnel_medium_802

  -- What a reply must be to stand for an event; no reply stands for any other event.
  abbrev pub Justifies : Packet → Event → Type 0
  Justifies reply (Event.access_accept a eap) =
      (reply.code ≡ access_accept)
      × (parse_authorization P reply ≡ ok a)
      × (eap ≡ non_empty (reassemble P reply))
  Justifies reply (Event.access_challenge eap) =
      (reply.code ≡ access_challenge) × (eap ≡ reassemble P reply) × (eap ≢ [])
  Justifies reply (Event.access_reject eap) =
      (reply.code ≡ access_reject) × (eap ≡ non_empty (reassemble P reply))
  Justifies reply _ = ⊥

  -- A reply that parses stands for an accept, a challenge or a reject by its code alone, with its
  -- own authorization and EAP packet, and a challenge is never empty.
  pub parse_reply-ok : (reply : Packet) (e : Event) → parse_reply P reply ≡ ok e → Justifies reply e
  unfolding parse_reply
  parse_reply-ok reply e h = ground arith
