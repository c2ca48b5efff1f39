-- ===== src/Sonic/Schema/View.antt =====
-- crates/enforce-sonic/src/schema.rs: a transition takes the configuration database from the old
-- posture of the port to the new one.
mod Effect
mod Deltas
pub use Effect.*
use usg_authenticator.Prelude.{
  Bool-cases, ◌⊎◌, inl, inr, ◌≡◌, ◌≢◌, refl, sym, ◌∙◌, List, [], ◌∷◌, ◌++◌, Text, Bool, false, not,
  if◌then◌else◌, Option, none, some, text_eq, text_eq_iff, arith, ◌&&◌, ◌||◌,
}
use usg_authenticator.Sonic.Db.{Op, hset, del, list_add, list_remove, DbOp}
use usg_authenticator.Sonic.Schema.Keys.{
  vlan_member_key-ne-deny, vlan_member_key-ne-permit, vlan_member_key-ne-acl, deny-ne-acl,
  permit-ne-acl, deny-ne-permit, vlan_member_key-injective, acl_table_key-injective,
}
use usg_authenticator.Sonic.Schema.{
  Desired, transition, vlan_delta, filter_delta, open_delta, open_controlled_port,
  close_controlled_port, vlan_member_key, deny_rule_key, eapol_permit_key, acl_table_key,
  deny_table, ports_field, option_eq,
}
use Deltas.{vlan_delta-member, filter_delta-binds, open_delta-rules}
pub use Deltas.{vlan_delta-other, filter_delta-other, open_delta-other}

-- What the database shows of a port in a posture. Its own deny table cannot be bound as a filter.
pub record Reflects (port : Text) (d : Desired) (w : View) : Type 0 where
  pub denies : w.present (deny_rule_key port) ≡ not d.authorized
  pub permits : w.present (eapol_permit_key port) ≡ not d.authorized
  pub member : (v : Text) → w.present (vlan_member_key v port) ≡ option_eq d.vlan (some v)
  pub binds :
      (f : Text)
      → (f ≡ deny_table port) ⊎ (w.bound (acl_table_key f) port ≡ option_eq d.filter_id (some f))

unless : {A : Type 0} {B : Type 0} → A ⊎ B → ¬ A → B
unless (inl a) n = absurd (n a)
unless (inr b) n = b

-- A rule of the port is still as it was when the port is opened or closed.
rule_kept :
    (port : Text) (old new : Desired) (w : View) (j : Text)
    → ((v : Text) → j ≢ vlan_member_key v port)
    → ((f : Text) → j ≢ acl_table_key f)
    → (perform
          (filter_delta port old.filter_id new.filter_id)
          (perform (vlan_delta port old.vlan new.vlan) w)).present
        j
      ≡ w.present j
rule_kept port old new w j nv nf =
    filter_delta-other port (perform (vlan_delta port old.vlan new.vlan) w) old.filter_id
      new.filter_id j nf
    ∙ (vlan_delta-other port w old.vlan new.vlan j port nv).0

-- The operations of a transition take a database that shows the old posture of a port to one that
-- shows the new posture: the two ACL rules of the port, all its VLAN memberships, and its binding
-- to every ACL table but its own deny table, for any two postures.
pub transition-Reflects :
    (port : Text) (old new : Desired) (w : View)
    → Reflects port old w
    → Reflects port new (perform (transition port old new) w)
unfolding transition
transition-Reflects port old new w h =
    let a = vlan_delta port old.vlan new.vlan in
    let b = filter_delta port old.filter_id new.filter_id in
    let w1 = perform a w in
    let w2 = perform b w1 in
    let rules =
      open_delta-rules port w2 old.authorized new.authorized
        (rule_kept port old new w (deny_rule_key port)
            (λ v e. vlan_member_key-ne-deny v port port (sym e)) (λ f. deny-ne-acl port f)
          ∙ h.denies)
        (rule_kept port old new w (eapol_permit_key port)
            (λ v e. vlan_member_key-ne-permit v port port (sym e)) (λ f. permit-ne-acl port f)
          ∙ h.permits) in
    rw (perform-append a, perform-append b)
      (record {
        denies = rules.0;
        permits = rules.1;
        member = λ v.
            (open_delta-other port w2 old.authorized new.authorized (vlan_member_key v port) port
              (vlan_member_key-ne-deny v port port) (vlan_member_key-ne-permit v port port)
              (vlan_member_key-ne-acl v port (deny_table port))).0
            ∙ filter_delta-other port w1 old.filter_id new.filter_id (vlan_member_key v port)
                (λ f. vlan_member_key-ne-acl v port f)
            ∙ vlan_delta-member port w old.vlan new.vlan v (h.member v);
        binds = λ f. elim (Bool-cases (text_eq f (deny_table port))) [
          | inl own ↦ inl ((text_eq_iff f (deny_table port)).0 own)
          | inr other ↦
              let ne : f ≢ deny_table port = λ e. ground (arith, text_eq_iff f (deny_table port)) in
              inr (
                (open_delta-other port w2 old.authorized new.authorized (acl_table_key f) port
                  (λ e. deny-ne-acl port f (sym e)) (λ e. permit-ne-acl port f (sym e))
                  (λ e. ne (acl_table_key-injective f (deny_table port) e))).1
                ∙ filter_delta-binds port w1 old.filter_id new.filter_id f (
                    (vlan_delta-other port w old.vlan new.vlan (acl_table_key f) port
                      (λ v e. vlan_member_key-ne-acl v port f (sym e))).1
                    ∙ unless (h.binds f) ne))
        ];
      })
