-- ===== src/Tests/Streams.antt =====
-- crates/radsec: a stream of octets that have all arrived.
use usg_authenticator.Prelude.{
  ℕ, ◌≡◌, leb, refl, List, [], ◌∷◌, ◌++◌, false, if◌then◌else◌, length, take, drop, ok, err, arith,
}
use usg_authenticator.Radius.Proto.{Code, Packet}
use usg_authenticator.Radius.Request.{zeros}
use usg_authenticator.Radsec.Framing.{Wire, declared_length, read_packet, write_packet}
use usg_authenticator.Radsec.Framing.Roundtrip.{IsStream, IsFramed, read_packet-framed}
use usg_authenticator.Radsec.Client.{recv, request}
use usg_authenticator.Tests.Replies.{codec}

abbrev wire : Wire
wire = record {
  Conn = List ℕ;
  IoError = Unit;
  TlsError = Unit;
  read_exact = λ n c. if leb n (length c) then (drop n c, ok (take n c)) else (c, err tt);
  write_all = λ bytes c. (c, ok tt);
  flush = λ c. (c, ok tt);
  expires = λ c. false;
  cancelled = λ c. [];
}

wire-IsStream : IsStream wire
wire-IsStream = record {
  arriving = λ c. c;
  read_exact_lem = λ n c h. (drop n c, ground arith, refl);
}

abbrev packet : ℕ → Packet
packet i = record { code = Code.other 2; identifier = i; authenticator = []; attributes = [] }

abbrev bytes : ℕ → List ℕ
bytes i = 2 ∷ i ∷ 0 ∷ 20 ∷ zeros

bytes-IsFramed : (i : ℕ) → IsFramed codec (packet i) (bytes i)
bytes-IsFramed i = record {
  code = 2;
  identifier = i;
  hi = 0;
  lo = 20;
  body = zeros;
  split = refl;
  declared = refl;
  lower = omega arith;
  upper = omega arith;
  decodes = refl;
}

read_packet-framed_example :
    (d : List ℕ) × (read_packet codec wire (bytes 9 ++ bytes 7) ≡ (d, ok (packet 9)))
    × (d ≡ bytes 7)
unfolding wire-IsStream
read_packet-framed_example =
    read_packet-framed codec wire wire-IsStream (packet 9) (bytes 9) (bytes 7) (bytes 9 ++ bytes 7)
      (bytes-IsFramed 9) refl

answered : (request codec wire (packet 9) (bytes 9)).1 ≡ ok (packet 9)
unfolding request recv read_packet write_packet declared_length
answered = refl
