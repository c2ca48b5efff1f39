-- ===== src/Pae/Session.antt =====
-- crates/pae/src/session.rs: the authenticator of one supplicant MAC. A method that mutates `self`
-- returns the new record with the effects, in the order in which they are to be performed.
pub mod Queries
use usg_authenticator.Prelude.{
  ℕ, ◌+◌, ◌%◌, List, [], ◌∷◌, ◌++◌, Bool, true, false, if◌then◌else◌, Option, none, some, Text,
}
use usg_authenticator.Pacp.Ethernet.{MacAddr}
use usg_authenticator.Pacp.Eap.{EapCode, response, request_identity}
use usg_authenticator.Pae.Config.{TimerKind, PaeConfig}
use usg_authenticator.Pae.Effect.{
  Authorization, FallbackReason, guest, auth_fail, critical, authorized, unauthorized, fallback,
  TerminateCause, reauth_failure, start, stop, Effect, tx_eap_to_supplicant, start_mab,
  set_authorization, arm_timer, cancel_timer, cancel_all_timers, accounting,
}

pub data AuthKind : Type 0 where
  dot1x mab : AuthKind

pub data State : Type 0 where
  new connecting auth_server authenticating authenticated held : State
  in_fallback : FallbackReason → State

pub record PortSession : Type 0 where
  pub mac : MacAddr
  pub state : State
  pub auth_kind : AuthKind
  pub eap_id : ℕ
  pub tx_count : ℕ
  pub authz : Option Authorization
  pub accounting_open : Bool

-- `PortSession::new`
unfoldable pub new_session : MacAddr → PortSession
new_session mac = record {
  mac = mac;
  state = new;
  auth_kind = dot1x;
  eap_id = 0;
  tx_count = 0;
  authz = none;
  accounting_open = false;
}

abbrev pub is_new : State → Bool
is_new new = true
is_new _ = false

abbrev pub is_authenticated : State → Bool
is_authenticated authenticated = true
is_authenticated _ = false

abbrev pub is_critical : State → Bool
is_critical (in_fallback critical) = true
is_critical _ = false

abbrev pub is_response : EapCode → Bool
is_response response = true
is_response _ = false

abbrev pub is_some {ℓ} : {A : Type ℓ} → Option A → Bool
is_some none = false
is_some (some _) = true

abbrev pub Outcome : Type 0
Outcome = PortSession × List Effect

-- Effects that were pushed before a method was called, in front of the method's own.
abbrev pub after : List Effect → Outcome → Outcome
after fx o = (o.0, fx ++ o.1)

-- `if let Some(eap) = eap { fx.push(TxEapToSupplicant(eap)) }`
abbrev relay : Option (List ℕ) → List Effect
relay none = []
relay (some eap) = tx_eap_to_supplicant eap ∷ []

abbrev when : Bool → Effect → List Effect
when true e = e ∷ []
when false e = []

-- The u8 identifier wraps.
unfoldable pub send_identity : PortSession → Outcome
send_identity s =
    let id = (s.eap_id + 1) % 256 in
    (
      record s { eap_id = id },
      tx_eap_to_supplicant (request_identity id) ∷ arm_timer TimerKind.tx_period ∷ [],
    )

unfoldable pub hold : PortSession → Outcome
hold s = (
  record s { state = held },
  cancel_all_timers ∷ set_authorization unauthorized ∷ arm_timer TimerKind.held ∷ [],
)

unfoldable pub enter_fallback : PortSession → FallbackReason → Text → Outcome
enter_fallback s reason vlan = (
  record s { state = in_fallback reason },
  cancel_all_timers ∷ set_authorization (fallback reason (some vlan)) ∷ [],
)

unfoldable pub teardown : PortSession → TerminateCause → Outcome
teardown s cause = if is_new s.state then (s, []) else (
  record s { state = new; auth_kind = dot1x; tx_count = 0; authz = none; accounting_open = false },
  when s.accounting_open (accounting (stop cause))
      ++ (cancel_all_timers ∷ set_authorization unauthorized ∷ []),
)

unfoldable pub begin_reauth : PortSession → Outcome
unfolding send_identity
begin_reauth s =
    after (cancel_timer TimerKind.reauth ∷ [])
      (send_identity (record s { state = connecting; tx_count = 1 }))

unfoldable pub coa_authorized : PortSession → Authorization → Outcome
coa_authorized s authz =
    if is_authenticated s.state
    then (record s { authz = some authz }, set_authorization (authorized authz) ∷ [])
    else (s, [])

unfoldable pub no_supplicant : PortSession → PaeConfig → Outcome
unfolding teardown enter_fallback hold
no_supplicant s cfg =
    if s.accounting_open
    then teardown s reauth_failure
    else if cfg.mab_enabled
    then (
      record s { auth_kind = mab; state = auth_server },
      cancel_timer TimerKind.tx_period ∷ start_mab s.mac ∷ arm_timer TimerKind.server_timeout ∷ [],
    )
    else elim cfg.guest_vlan [ some vlan ↦ enter_fallback s guest vlan | none ↦ hold s ]

unfoldable pub authorize : PortSession → Authorization → Option (List ℕ) → PaeConfig → Outcome
authorize s authz eap cfg = (
  record s { accounting_open = true; authz = some authz; state = authenticated },
  relay eap
      ++ (cancel_all_timers
          ∷ set_authorization (authorized authz)
          ∷ ((if s.accounting_open then [] else accounting start ∷ [])
              ++ (when cfg.reauth_enabled (arm_timer TimerKind.reauth)
                  ++ when (is_some authz.session_timeout) (arm_timer TimerKind.session_timeout)))),
)

unfoldable pub reject : PortSession → Option (List ℕ) → PaeConfig → Outcome
unfolding teardown enter_fallback hold
reject s eap cfg = after (relay eap) (
    if s.accounting_open
    then teardown s reauth_failure
    else elim cfg.auth_fail_vlan [ some vlan ↦ enter_fallback s auth_fail vlan | none ↦ hold s ])

-- With a session open the port rides out the outage; else the critical VLAN, else closed.
unfoldable pub unreachable : PortSession → PaeConfig → Outcome
unfolding enter_fallback hold
unreachable s cfg =
    if s.accounting_open
    then (
      record s { state = authenticated },
      cancel_timer TimerKind.server_timeout ∷ when cfg.reauth_enabled (arm_timer TimerKind.reauth),
    )
    else elim cfg.critical_vlan [
      | some vlan ↦
          let (t, fx) = enter_fallback s critical vlan in
          (t, fx ++ (arm_timer TimerKind.server_timeout ∷ []))
      | none ↦ hold s
    ]
