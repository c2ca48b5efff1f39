-- ===== src/Radius/Error.antt =====
-- crates/radius-client/src/error.rs, over the error of the codec.
pub mod Display
use usg_authenticator.Prelude.{ℕ}

pub data RadiusClientError {ℓ} (E : Type ℓ) : Type ℓ where
  proto : E → RadiusClientError E
  invalid_user_name : RadiusClientError E
  unexpected_reply_code : ℕ → RadiusClientError E
  missing_eap_message : RadiusClientError E
  empty_eap_relay : RadiusClientError E
  malformed_vlan_assignment : RadiusClientError E
