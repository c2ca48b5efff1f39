-- ===== src/Authd/Error.antt =====
-- crates/authd/src/error.rs. `P` is the error of the RADIUS codec and `E` that of the sockets.
pub mod Display
use usg_authenticator.Prelude.{Text}
use usg_authenticator.Pacp.Error.{PacpError}
use usg_authenticator.Radius.Error.{RadiusClientError}

-- `ConfigError` of crates/authd/src/config.rs
pub data ConfigError : Type 0 where
  no_ports : ConfigError
  duplicate_port : Text → ConfigError
  empty_field : Text → ConfigError
  bad_timeout : ConfigError
  bad_server_addr : Text → ConfigError

pub data AuthdError (P E : Type 0) : Type 0 where
  config : ConfigError → AuthdError P E
  radius : RadiusClientError P → AuthdError P E
  no_pending_request : AuthdError P E
  reply_verification_failed : AuthdError P E
  rad_sec : E → AuthdError P E
  eapol : E → AuthdError P E
  enforce : Text → AuthdError P E
  frame : PacpError → AuthdError P E
