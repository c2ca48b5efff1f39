-- ===== src/Radsec/Framing.antt =====
-- crates/radsec/src/framing.rs and error.rs: RADIUS packets back to back on a byte stream.
pub mod Roundtrip
use usg_authenticator.Prelude.{
  ℕ, ◌-◌, ◌++◌, List, [], ◌∷◌, Bool, ltb, leb, ◌&&◌, if◌then◌else◌, Option, none, some, Result, ok,
  err, map_err,
}
use usg_authenticator.Pacp.Octets.{from_be_bytes}
use usg_authenticator.Radius.Proto.{Packet, RadiusProto}

-- `T` is the error of the TLS library, `E` that of the socket, `P` that of the RADIUS codec.
pub data RadSecError (P E T : Type 0) : Type 0 where
  io : E → RadSecError P E T
  tls : T → RadSecError P E T
  not_fips crypto_policy_violation no_credential : RadSecError P E T
  bad_frame_length : ℕ → RadSecError P E T
  proto : P → RadSecError P E T
  bad_server_name timeout : RadSecError P E T
  unexpected_reply : ℕ → ℕ → RadSecError P E T

-- The TLS stream and its deadline, which tokio and rustls implement: `expires` says whether the
-- deadline passes before a packet is read, and `cancelled` what a read that is given up leaves.
pub record Wire : Type 1 where
  pub Conn : Type 0
  pub IoError : Type 0
  pub TlsError : Type 0
  pub read_exact : ℕ → Conn → Conn × Result IoError (List ℕ)
  pub write_all : List ℕ → Conn → Conn × Result IoError (Unit {0})
  pub flush : Conn → Conn × Result IoError (Unit {0})
  pub expires : Conn → Bool
  pub cancelled : Conn → Conn

abbrev pub header_len : ℕ
header_len = 4

-- Of a header of four octets.
unfoldable pub declared_length : List ℕ → ℕ
declared_length (code ∷ id ∷ hi ∷ lo ∷ []) = from_be_bytes hi lo
declared_length _ = 0

module _ (P : RadiusProto) (W : Wire) where
  abbrev pub M {ℓ} : Type ℓ → Type ℓ
  M A = W.Conn → W.Conn × Result (RadSecError P.PacketError W.IoError W.TlsError) A

  abbrev pub continue {ℓ κ} :
      {A : Type ℓ} {B : Type κ}
      → (A → M B)
      → W.Conn × Result (RadSecError P.PacketError W.IoError W.TlsError) A
      → W.Conn × Result (RadSecError P.PacketError W.IoError W.TlsError) B
  continue f (c, ok a) = f a c
  continue f (c, err e) = (c, err e)

  abbrev pub lift {ℓ} : {A : Type ℓ} → (W.Conn → W.Conn × Result W.IoError A) → M A
  lift act c = let (d, r) = act c in (d, map_err io r)

  abbrev read_body : List ℕ → ℕ → M Packet
  read_body header len c =
      continue (λ body d. (d, map_err proto (P.decode (header ++ body))))
        (lift (W.read_exact (len - header_len)) c)

  abbrev read_framed : List ℕ → M Packet
  read_framed header c =
      let len = declared_length header in
      if leb P.min_packet_size len && leb len P.max_packet_size
      then (if ltb len header_len then (c, err (bad_frame_length len)) else read_body header len c)
      else (c, err (bad_frame_length len))

  unfoldable pub read_packet : M Packet
  read_packet c = continue read_framed (lift (W.read_exact header_len) c)

  abbrev write_bytes : Result P.PacketError (List ℕ) → M (Unit {0})
  write_bytes (err e) c = (c, err (proto e))
  write_bytes (ok bytes) c = continue (λ _. lift W.flush) (lift (W.write_all bytes) c)

  unfoldable pub write_packet : Packet → M (Unit {0})
  write_packet p = write_bytes (P.encode p)
