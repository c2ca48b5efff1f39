-- ===== src/Pae/Effect.antt =====
-- crates/pae/src/effect.rs: the side effects that the state machine asks for.
use usg_authenticator.Prelude.{ℕ, List, Text, Option}
use usg_authenticator.Pacp.Ethernet.{MacAddr}
use usg_authenticator.Pae.Config.{TimerKind}

pub record Authorization : Type 0 where
  pub vlan : Option Text
  pub filter_id : Option Text
  pub session_timeout : Option ℕ
  pub class : Option (List ℕ)

pub data FallbackReason : Type 0 where
  guest auth_fail critical : FallbackReason

pub data PortAuthorization : Type 0 where
  authorized : Authorization → PortAuthorization
  unauthorized : PortAuthorization
  fallback : FallbackReason → Option Text → PortAuthorization

pub data TerminateCause : Type 0 where
  supplicant_logoff port_link_down session_timeout admin_reset reauth_failure : TerminateCause

pub data AcctTrigger : Type 0 where
  start : AcctTrigger
  stop : TerminateCause → AcctTrigger

pub data Effect : Type 0 where
  tx_eap_to_supplicant : List ℕ → Effect
  to_auth_server : List ℕ → Effect
  start_mab : MacAddr → Effect
  set_authorization : PortAuthorization → Effect
  arm_timer : TimerKind → Effect
  cancel_timer : TimerKind → Effect
  cancel_all_timers : Effect
  accounting : AcctTrigger → Effect
