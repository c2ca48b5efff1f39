-- ===== src/Authd/Error/Display.antt =====
-- crates/authd/src/error.rs and config.rs: the text of an error. `quoted` is `{:?}` of a text, `codec`
-- the text of an error of the RADIUS codec, and `shown` that of an error of the sockets.
use usg_authenticator.Prelude.{◌++◌, Text, codes}
use usg_authenticator.Std.Decimal.{decimal}
use usg_authenticator.Pacp.Error.Display as CodecError
use usg_authenticator.Radius.Error.Display as RadiusError
use usg_authenticator.Authd.Config.{max_io_timeout_secs}
use usg_authenticator.Authd.Error.{
  ConfigError, no_ports, duplicate_port, empty_field, bad_timeout, bad_server_addr, AuthdError,
  config, radius, no_pending_request, reply_verification_failed, rad_sec, eapol, enforce, frame,
}

module _ (quoted : Text → Text) where
  abbrev pub display_config : ConfigError → Text
  display_config no_ports = codes "no ports configured"
  display_config (duplicate_port p) = codes "duplicate port " ++ quoted p
  display_config (empty_field field) = codes "required field " ++ (field ++ codes " is empty")
  display_config bad_timeout =
      codes "io_timeout_secs must be in 1..=" ++ decimal max_io_timeout_secs
  display_config (bad_server_addr a) =
      codes "server_addr " ++ (quoted a ++ codes " is not host:port")

module _ {P E : Type 0} (quoted : Text → Text) (codec : P → Text) (shown : E → Text) where
  abbrev pub display : AuthdError P E → Text
  display (config e) = codes "config error: " ++ display_config quoted e
  display (radius e) = codes "RADIUS error: " ++ RadiusError.display codec e
  display no_pending_request = codes "RADIUS reply with no outstanding request"
  display reply_verification_failed = codes "RADIUS reply failed verification"
  display (rad_sec e) = codes "RadSec error: " ++ shown e
  display (eapol e) = codes "EAPOL socket error: " ++ shown e
  display (enforce e) = codes "enforcement error: " ++ e
  display (frame e) = codes "EAPOL frame error: " ++ CodecError.display e
