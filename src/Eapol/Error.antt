-- ===== src/Eapol/Error.antt =====
-- crates/eapol-io/src/error.rs. `E` is the error of the system calls.
pub mod Display
use usg_authenticator.Prelude.{ℕ, Text}

pub data EapolError (E : Type 0) : Type 0 where
  invalid_interface_name : Text → EapolError E
  interface_not_found : Text → EapolError E
  io : E → EapolError E
  frame_too_short : ℕ → EapolError E
