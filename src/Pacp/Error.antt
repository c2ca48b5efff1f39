-- ===== src/Pacp/Error.antt =====
-- crates/pacp/src/error.rs: the codec's errors, with what each of them reports.
pub mod Display
use usg_authenticator.Prelude.{ℕ}

pub data PacpError : Type 0 where
  truncated_ethernet : ℕ → PacpError
  not_eapol : ℕ → PacpError
  truncated_eapol_header : ℕ → PacpError
  truncated_eapol_body : ℕ → ℕ → PacpError
  truncated_eap_header : ℕ → PacpError
  eap_length_mismatch : ℕ → ℕ → PacpError
  eap_too_short : ℕ → ℕ → PacpError
  body_too_long : ℕ → PacpError
