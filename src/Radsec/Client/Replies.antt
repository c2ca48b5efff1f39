-- ===== src/Radsec/Client/Replies.antt =====
-- crates/radsec/src/client.rs: which replies a request takes from the connection.
use usg_authenticator.Prelude.{ℕ, ◌≡◌, ◌≢◌, List, ◌++◌, false, ok, err, arith}
use usg_authenticator.Radius.Proto.{Packet, RadiusProto}
use usg_authenticator.Radsec.Framing.{Wire, unexpected_reply, read_packet, write_packet}
use usg_authenticator.Radsec.Framing.Roundtrip.{IsStream, IsFramed, read_packet-framed}
use usg_authenticator.Radsec.Client.{recv, request}

module _ (P : RadiusProto) (W : Wire) where
  -- A reply that a request returns was read after the request was written, before the deadline,
  -- and has the identifier of the request.
  pub request-ok :
      (packet reply : Packet) (c : W.Conn)
      → (request P W packet c).1 ≡ ok reply
      → let sent = write_packet P W packet c in
        (sent.1 ≡ ok tt)
        × (W.expires sent.0 ≡ false)
        × ((read_packet P W sent.0).1 ≡ ok reply)
        × (reply.identifier ≡ packet.identifier)
  unfolding request recv
  request-ok packet reply c h = ground arith

  -- If a whole packet with another identifier arrives before the reply, the request, once written
  -- and before the deadline, fails with UnexpectedReply for that packet, and what is behind it is
  -- left on the stream.
  pub request_stale :
      (S : IsStream W) (packet stale : Packet) (bytes rest : List ℕ) (c sent : W.Conn)
      → write_packet P W packet c ≡ (sent, ok tt)
      → W.expires sent ≡ false
      → IsFramed P stale bytes
      → S.arriving sent ≡ bytes ++ rest
      → stale.identifier ≢ packet.identifier
      → (d : W.Conn) × (request P W packet c
          ≡ (d, err (unexpected_reply packet.identifier stale.identifier)))
        × (S.arriving d ≡ rest)
  unfolding request recv
  request_stale S packet stale bytes rest c sent wrote timely framed here other =
      let (d, read, left) = read_packet-framed P W S stale bytes rest sent framed here in
      (d, rw (wrote, timely, read) (ground arith), left)
