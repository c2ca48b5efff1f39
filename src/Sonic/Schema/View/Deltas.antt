-- ===== src/Sonic/Schema/View/Deltas.antt =====
-- crates/enforce-sonic/src/schema.rs: what each part of a transition makes of the database.
use usg_authenticator.Prelude.{
  ◌≡◌, ◌≢◌, Text, Bool, false, not, Option, none, some, text_eq, text_eq_iff, arith,
}
use usg_authenticator.Sonic.Schema.Keys.{
  deny-ne-permit, vlan_member_key-injective, acl_table_key-injective,
}
use usg_authenticator.Sonic.Schema.{
  vlan_delta, filter_delta, open_delta, open_controlled_port, close_controlled_port,
  vlan_member_key, deny_rule_key, eapol_permit_key, acl_table_key, deny_table, ports_field,
  option_eq,
}
use usg_authenticator.Sonic.Schema.View.Effect.{View, perform}

ne_text_eq : {s t : Text} → s ≢ t → text_eq s t ≡ false
ne_text_eq {s} {t} h = ground (arith, text_eq_iff s t)

module _ (port : Text) (w : View) where
  pub vlan_delta-member :
      (old new : Option Text) (v : Text)
      → w.present (vlan_member_key v port) ≡ option_eq old (some v)
      → (perform (vlan_delta port old new) w).present (vlan_member_key v port)
        ≡ option_eq new (some v)
  unfolding vlan_delta
  vlan_delta-member none none v h = ground arith
  vlan_delta-member none (some n) v h = ground (
    arith,
    text_eq_iff (vlan_member_key v port) (vlan_member_key n port),
    vlan_member_key-injective v n port,
    text_eq_iff n v,
  )
  vlan_delta-member (some o) none v h = ground (
    arith,
    text_eq_iff (vlan_member_key v port) (vlan_member_key o port),
    vlan_member_key-injective v o port,
    text_eq_iff o v,
  )
  vlan_delta-member (some o) (some n) v h = ground (
    arith,
    text_eq_iff (vlan_member_key v port) (vlan_member_key n port),
    text_eq_iff (vlan_member_key v port) (vlan_member_key o port),
    vlan_member_key-injective v n port,
    vlan_member_key-injective v o port,
    text_eq_iff n v,
    text_eq_iff o v,
    text_eq_iff o n,
  )

  -- A key that is no VLAN membership of the port is left as it was.
  pub vlan_delta-other :
      (old new : Option Text) (j u : Text)
      → ((v : Text) → j ≢ vlan_member_key v port)
      → let w' = perform (vlan_delta port old new) w in
        (w'.present j ≡ w.present j) × (w'.bound j u ≡ w.bound j u)
  unfolding vlan_delta
  vlan_delta-other none none j u h = ground arith
  vlan_delta-other none (some n) j u h = ground (arith, h n, text_eq_iff j (vlan_member_key n port))
  vlan_delta-other (some o) none j u h = ground (arith, h o, text_eq_iff j (vlan_member_key o port))
  vlan_delta-other (some o) (some n) j u h = ground (
    arith,
    h o,
    h n,
    text_eq_iff j (vlan_member_key o port),
    text_eq_iff j (vlan_member_key n port),
  )

  pub filter_delta-binds :
      (old new : Option Text) (f : Text)
      → w.bound (acl_table_key f) port ≡ option_eq old (some f)
      → (perform (filter_delta port old new) w).bound (acl_table_key f) port
        ≡ option_eq new (some f)
  unfolding filter_delta
  filter_delta-binds none none f h = ground arith
  filter_delta-binds none (some n) f h = ground (
    arith,
    text_eq_iff (acl_table_key f) (acl_table_key n),
    acl_table_key-injective f n,
    text_eq_iff n f,
    text_eq_iff port port,
    text_eq_iff ports_field ports_field,
  )
  filter_delta-binds (some o) none f h = ground (
    arith,
    text_eq_iff (acl_table_key f) (acl_table_key o),
    acl_table_key-injective f o,
    text_eq_iff o f,
    text_eq_iff port port,
    text_eq_iff ports_field ports_field,
  )
  filter_delta-binds (some o) (some n) f h = ground (
    arith,
    text_eq_iff (acl_table_key f) (acl_table_key n),
    text_eq_iff (acl_table_key f) (acl_table_key o),
    acl_table_key-injective f n,
    acl_table_key-injective f o,
    text_eq_iff n f,
    text_eq_iff o f,
    text_eq_iff o n,
    text_eq_iff port port,
    text_eq_iff ports_field ports_field,
  )

  pub filter_delta-other :
      (old new : Option Text) (j : Text)
      → ((f : Text) → j ≢ acl_table_key f)
      → (perform (filter_delta port old new) w).present j ≡ w.present j
  unfolding filter_delta
  filter_delta-other none none j h = ground arith
  filter_delta-other none (some n) j h = ground (arith, h n, text_eq_iff j (acl_table_key n))
  filter_delta-other (some o) none j h = ground arith
  filter_delta-other (some o) (some n) j h = ground (arith, h n, text_eq_iff j (acl_table_key n))

  pub open_delta-rules :
      (old new : Bool)
      → (w.present (deny_rule_key port) ≡ not old)
      → (w.present (eapol_permit_key port) ≡ not old)
      → let w' = perform (open_delta port old new) w in
        (w'.present (deny_rule_key port) ≡ not new) × (w'.present (eapol_permit_key port) ≡ not new)
  unfolding open_delta open_controlled_port close_controlled_port
  open_delta-rules old new h k = ground (
    arith,
    text_eq_iff (deny_rule_key port) (deny_rule_key port),
    text_eq_iff (eapol_permit_key port) (eapol_permit_key port),
    text_eq_iff (deny_rule_key port) (eapol_permit_key port),
    text_eq_iff (eapol_permit_key port) (deny_rule_key port),
    deny-ne-permit port,
  )

  -- Opening and closing touch the port's two rules and its deny table only.
  pub open_delta-other :
      (old new : Bool) (j u : Text)
      → j ≢ deny_rule_key port
      → j ≢ eapol_permit_key port
      → j ≢ acl_table_key (deny_table port)
      → let w' = perform (open_delta port old new) w in
        (w'.present j ≡ w.present j) × (w'.bound j u ≡ w.bound j u)
  unfolding open_delta open_controlled_port close_controlled_port
  open_delta-other old new j u a b d = ground (
    arith,
    text_eq_iff j (deny_rule_key port),
    text_eq_iff j (eapol_permit_key port),
    text_eq_iff j (acl_table_key (deny_table port)),
  )
