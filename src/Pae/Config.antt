-- ===== src/Pae/Config.antt =====
-- crates/pae/src/config.rs: the static configuration of a port.
use usg_authenticator.Prelude.{ℕ, Bool, true, false, Text, Option, none}

pub data HostMode : Type 0 where
  single_host multi_host multi_auth multi_domain : HostMode

pub record Timers : Type 0 where
  pub tx_period : ℕ
  pub held_period : ℕ
  pub reauth_period : ℕ
  pub server_timeout : ℕ
  pub supp_timeout : ℕ

abbrev pub default_timers : Timers
default_timers = record {
  tx_period = 30;
  held_period = 60;
  reauth_period = 3600;
  server_timeout = 30;
  supp_timeout = 30;
}

pub data TimerKind : Type 0 where
  tx_period held reauth server_timeout supp_timeout session_timeout : TimerKind

pub record PaeConfig : Type 0 where
  pub host_mode : HostMode
  pub timers : Timers
  pub max_reauth_req : ℕ
  pub reauth_enabled : Bool
  pub mab_enabled : Bool
  pub guest_vlan : Option Text
  pub auth_fail_vlan : Option Text
  pub critical_vlan : Option Text

abbrev pub default_config : PaeConfig
default_config = record {
  host_mode = multi_auth;
  timers = default_timers;
  max_reauth_req = 2;
  reauth_enabled = true;
  mab_enabled = false;
  guest_vlan = none;
  auth_fail_vlan = none;
  critical_vlan = none;
}
