-- ===== src/Radius/Consts.antt =====
-- crates/radius-client/src/consts.rs: attribute numbers and coded values.
use usg_authenticator.Prelude.{ℕ}

abbrev pub eap_message : ℕ
eap_message = 79

abbrev pub message_authenticator : ℕ
message_authenticator = 80

abbrev pub nas_port_id : ℕ
nas_port_id = 87

abbrev pub state : ℕ
state = 24

abbrev pub tunnel_type : ℕ
tunnel_type = 64

abbrev pub tunnel_medium_type : ℕ
tunnel_medium_type = 65

abbrev pub tunnel_type_vlan : ℕ
tunnel_type_vlan = 13

abbrev pub tunnel_medium_802 : ℕ
tunnel_medium_802 = 6

abbrev pub tunnel_private_group_id : ℕ
tunnel_private_group_id = 81

abbrev pub max_attr_value : ℕ
max_attr_value = 253

abbrev pub service_type_framed : ℕ
service_type_framed = 2

abbrev pub service_type_call_check : ℕ
service_type_call_check = 10

abbrev pub nas_port_type_ethernet : ℕ
nas_port_type_ethernet = 15

abbrev pub max_tag_octet : ℕ
max_tag_octet = 0x1F
