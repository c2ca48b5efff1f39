-- ===== src/Radsec/Client.antt =====
-- crates/radsec/src/client.rs: a request and its reply on an established connection.
pub mod Replies
pub mod Connect
use usg_authenticator.Prelude.{ℕ, Bool, ◌==◌, if◌then◌else◌, Result, ok, err}
use usg_authenticator.Radius.Proto.{Packet, RadiusProto}
use usg_authenticator.Radsec.Framing.{
  RadSecError, timeout, unexpected_reply, Wire, M, continue, read_packet, write_packet,
}

module _ (P : RadiusProto) (W : Wire) where
  -- A read that passes the deadline is given up where it is.
  unfoldable pub recv : M P W Packet
  recv c = if W.expires c then (W.cancelled c, err timeout) else read_packet P W c

  unfoldable pub send : Packet → M P W (Unit {0})
  send packet = write_packet P W packet

  abbrev answer_to : Packet → Packet → M P W Packet
  answer_to request reply c =
      if reply.identifier == request.identifier
      then (c, ok reply)
      else (c, err (unexpected_reply request.identifier reply.identifier))

  unfoldable pub request : Packet → M P W Packet
  request packet c =
      continue P W (λ _ sent. continue P W (answer_to packet) (recv sent))
        (write_packet P W packet c)
