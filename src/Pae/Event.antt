-- ===== src/Pae/Event.antt =====
-- crates/pae/src/event.rs: the inputs of the state machine.
use usg_authenticator.Prelude.{ℕ, List, Option}
use usg_authenticator.Pacp.Eap.{EapCode, EapType}
use usg_authenticator.Pae.Config.{TimerKind}
use usg_authenticator.Pae.Effect.{Authorization}

pub record InboundEap : Type 0 where
  pub code : EapCode
  pub identifier : ℕ
  pub eap_type : Option EapType
  pub packet : List ℕ

pub data Event : Type 0 where
  enable link_up link_down eapol_start eapol_logoff : Event
  eap_from_supplicant : InboundEap → Event
  access_challenge : List ℕ → Event
  access_accept : Authorization → Option (List ℕ) → Event
  access_reject : Option (List ℕ) → Event
  server_unreachable : Event
  timer : TimerKind → Event
  coa_disconnect coa_reauthenticate : Event
  coa_authorize : Authorization → Event
