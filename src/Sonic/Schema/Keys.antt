-- ===== src/Sonic/Schema/Keys.antt =====
-- crates/enforce-sonic/src/schema.rs: the keys of a port differ, and each determines the name in it.
use usg_authenticator.Prelude.{
  ◌≡◌, ◌≢◌, Text, codes, append_cancel_left, append_cancel_right, arith,
}
use usg_authenticator.Sonic.Schema.{vlan_member_key, deny_rule_key, eapol_permit_key, acl_table_key}

pub vlan_member_key-ne-deny : (v p q : Text) → vlan_member_key v p ≢ deny_rule_key q
unfolding vlan_member_key deny_rule_key
vlan_member_key-ne-deny v p q h = ground arith

pub vlan_member_key-ne-permit : (v p q : Text) → vlan_member_key v p ≢ eapol_permit_key q
unfolding vlan_member_key eapol_permit_key
vlan_member_key-ne-permit v p q h = ground arith

pub vlan_member_key-ne-acl : (v p q : Text) → vlan_member_key v p ≢ acl_table_key q
unfolding vlan_member_key acl_table_key
vlan_member_key-ne-acl v p q h = ground arith

pub deny-ne-acl : (p q : Text) → deny_rule_key p ≢ acl_table_key q
unfolding deny_rule_key acl_table_key
deny-ne-acl p q h = ground arith

pub permit-ne-acl : (p q : Text) → eapol_permit_key p ≢ acl_table_key q
unfolding eapol_permit_key acl_table_key
permit-ne-acl p q h = ground arith

pub deny-ne-permit : (p : Text) → deny_rule_key p ≢ eapol_permit_key p
unfolding deny_rule_key eapol_permit_key
deny-ne-permit p h =
    let e = append_cancel_left p _ _ (append_cancel_left (codes "ACL_RULE|DOT1X_") _ _ h) in
    ground arith

pub vlan_member_key-injective : (v u p : Text) → vlan_member_key v p ≡ vlan_member_key u p → v ≡ u
unfolding vlan_member_key
vlan_member_key-injective v u p h =
    append_cancel_right v u _ (append_cancel_left (codes "VLAN_MEMBER|Vlan") _ _ h)

pub acl_table_key-injective : (f g : Text) → acl_table_key f ≡ acl_table_key g → f ≡ g
unfolding acl_table_key
acl_table_key-injective f g h = append_cancel_left (codes "ACL_TABLE|") _ _ h
