-- ===== src/Radsec/Display.antt =====
-- crates/radsec/src/error.rs: the text of an error, with those of the codec, the socket and rustls.
use usg_authenticator.Prelude.{◌++◌, Text, codes}
use usg_authenticator.Std.Decimal.{decimal}
use usg_authenticator.Radsec.Framing.{
  RadSecError, io, tls, not_fips, crypto_policy_violation, no_credential, bad_frame_length, proto,
  bad_server_name, timeout, unexpected_reply,
}

module _ {P E T : Type 0} (codec : P → Text) (socket : E → Text) (rustls : T → Text) where
  abbrev pub display : RadSecError P E T → Text
  display (io e) = codes "I/O error: " ++ socket e
  display (tls e) = codes "TLS error: " ++ rustls e
  display not_fips = codes "crypto provider is not FIPS-validated"
  display crypto_policy_violation =
      codes "crypto policy is not ML-KEM-1024 + TLS_AES_256_GCM_SHA384 only"
  display no_credential = codes "PEM held no usable certificate or key"
  display (bad_frame_length n) =
      codes "RADIUS frame length " ++ (decimal n ++ codes " outside 20..=4096")
  display (proto e) = codes "RADIUS codec error: " ++ codec e
  display bad_server_name = codes "invalid server DNS name"
  display timeout = codes "RadSec operation timed out"
  display (unexpected_reply expected got) =
      codes "reply identifier "
      ++ (decimal got ++ (codes " does not match request " ++ decimal expected))
