-- ===== src/Sonic/Enforcer/Startup.antt =====
-- crates/enforce-sonic/src/enforcer.rs: `ensure_eapol_trap` on a database that keeps the
-- contract of `DbConn`.
use usg_authenticator.Prelude.{
  ◌≡◌, ◌≢◌, refl, ap, ◌∙◌, List, ◌++◌, Text, true, false, text_eq, text_eq_iff, ok, arith,
  Bool-cases, ◌⊎◌, inl, inr,
}
use usg_authenticator.Sonic.Db.{DbOp, DbConn}
use usg_authenticator.Sonic.Database.{is_plain, IsDatabase}
use usg_authenticator.Sonic.Schema.{
  closed, close_controlled_port, plan_close, plan_eapol_trap, eapol_trap_key, deny_rule_key,
  eapol_permit_key, vlan_member_key, acl_table_key, deny_table, ports_field,
}
use usg_authenticator.Sonic.Schema.Keys.{
  vlan_member_key-ne-deny, vlan_member_key-ne-permit, vlan_member_key-ne-acl, deny-ne-acl,
  permit-ne-acl, acl_table_key-injective,
}
use usg_authenticator.Sonic.Schema.View.{View, perform}
use usg_authenticator.Sonic.Enforcer.{SonicEnforcer, previous, ensure_eapol_trap}
use usg_authenticator.Sonic.Enforcer.Agrees.{AllPlain, AllPlain-append, plan_close-AllPlain, Shown}
use usg_authenticator.Sonic.Enforcer.FailClosed.{previous-remember}

trap-ne-acl : (f : Text) → eapol_trap_key ≢ acl_table_key f
unfolding eapol_trap_key acl_table_key
trap-ne-acl f h = ground arith

trap-ne-member : (v port : Text) → eapol_trap_key ≢ vlan_member_key v port
unfolding eapol_trap_key vlan_member_key
trap-ne-member v port h = ground arith

trap-ne-deny : (port : Text) → eapol_trap_key ≢ deny_rule_key port
unfolding eapol_trap_key deny_rule_key
trap-ne-deny port h = ground arith

trap-ne-permit : (port : Text) → eapol_trap_key ≢ eapol_permit_key port
unfolding eapol_trap_key eapol_permit_key
trap-ne-permit port h = ground arith

abbrev start_ops : Text → List DbOp
start_ops port = plan_eapol_trap ++ plan_close port

start_ops-rules :
    (port : Text) (w : View)
    → let w' = perform (start_ops port) w in
      (w'.present eapol_trap_key ≡ true)
      × (w'.present (deny_rule_key port) ≡ true)
      × (w'.present (eapol_permit_key port) ≡ true)
unfolding plan_eapol_trap close_controlled_port
start_ops-rules port w = ground (
  arith,
  text_eq_iff eapol_trap_key eapol_trap_key,
  text_eq_iff (deny_rule_key port) (deny_rule_key port),
  text_eq_iff (eapol_permit_key port) (eapol_permit_key port),
)

start_ops-member :
    (v port : Text) (w : View)
    → (perform (start_ops port) w).present (vlan_member_key v port)
      ≡ w.present (vlan_member_key v port)
unfolding plan_eapol_trap close_controlled_port
start_ops-member v port w = ground (
  arith,
  trap-ne-member v port,
  vlan_member_key-ne-deny v port port,
  vlan_member_key-ne-permit v port port,
  vlan_member_key-ne-acl v port (deny_table port),
  text_eq_iff (vlan_member_key v port) eapol_trap_key,
  text_eq_iff (vlan_member_key v port) (deny_rule_key port),
  text_eq_iff (vlan_member_key v port) (eapol_permit_key port),
  text_eq_iff (vlan_member_key v port) (acl_table_key (deny_table port)),
)

start_ops-binds :
    (f port : Text) (w : View)
    → f ≢ deny_table port
    → (perform (start_ops port) w).bound (acl_table_key f) port ≡ w.bound (acl_table_key f) port
unfolding plan_eapol_trap close_controlled_port
start_ops-binds f port w ne = ground (
  arith,
  trap-ne-acl f,
  deny-ne-acl port f,
  permit-ne-acl port f,
  acl_table_key-injective f (deny_table port),
  text_eq_iff (acl_table_key f) eapol_trap_key,
  text_eq_iff (acl_table_key f) (deny_rule_key port),
  text_eq_iff (acl_table_key f) (eapol_permit_key port),
  text_eq_iff (acl_table_key f) (acl_table_key (deny_table port)),
)

plan_eapol_trap-AllPlain : AllPlain plan_eapol_trap
unfolding plan_eapol_trap ports_field text_eq
plan_eapol_trap-AllPlain = ((refl, refl), tt)

module _ (c : DbConn) (D : IsDatabase c) (port : Text) (e : SonicEnforcer c) where
  abbrev pub started : SonicEnforcer c
  started = (ensure_eapol_trap c port e).0

  -- Success says that the operations were written, and that the closed posture is remembered.
  pub ensure_eapol_trap-wrote :
      (ensure_eapol_trap c port e).1 ≡ ok tt
      → ((c.apply (start_ops port) e.conn).1 ≡ ok tt)
        × (started.conn ≡ (c.apply (start_ops port) e.conn).0)
        × (previous port started.applied ≡ closed)
  unfolding ensure_eapol_trap
  ensure_eapol_trap-wrote h =
      ground (arith, previous-remember port port closed e.applied, text_eq_iff port port)

  started-view :
      is_plain port ≡ true
      → (ensure_eapol_trap c port e).1 ≡ ok tt
      → D.view started.conn ≡ perform (start_ops port) (D.view e.conn)
  started-view plain h =
      let wrote = ensure_eapol_trap-wrote h in
      ap D.view wrote.1
      ∙ D.apply_lem (start_ops port) e.conn
          (AllPlain-append plan_eapol_trap (plan_close port) plan_eapol_trap-AllPlain
            (plan_close-AllPlain port plain))
          wrote.0

  -- After a start that succeeds, on a database that keeps its contract and for a port with a plain
  -- name: the trap for EAPOL frames, the port's deny rule and its permit for EAPOL are there, and
  -- the closed posture is remembered; but every VLAN membership of the port, and its binding to
  -- every ACL table but its own deny table, is still what it was before.
  pub ensure_eapol_trap-ok :
      (v f : Text)
      → is_plain port ≡ true
      → f ≢ deny_table port
      → (ensure_eapol_trap c port e).1 ≡ ok tt
      → let w = D.view started.conn in
        (w.present eapol_trap_key ≡ true)
        × (w.present (deny_rule_key port) ≡ true)
        × (w.present (eapol_permit_key port) ≡ true)
        × (previous port started.applied ≡ closed)
        × (w.present (vlan_member_key v port) ≡ (D.view e.conn).present (vlan_member_key v port))
        × (w.bound (acl_table_key f) port ≡ (D.view e.conn).bound (acl_table_key f) port)
  ensure_eapol_trap-ok v f plain ne h =
      let rules = start_ops-rules port (D.view e.conn) in
      rw (started-view plain h) (
        rules.0,
        rules.1,
        rules.2,
        (ensure_eapol_trap-wrote h).2,
        start_ops-member v port (D.view e.conn),
        start_ops-binds f port (D.view e.conn) ne,
      )

  -- So where the database had no VLAN membership of the port and bound it to no ACL table but its
  -- own deny table, it shows after the start what is remembered of the port.
  pub ensure_eapol_trap-Shown :
      is_plain port ≡ true
      → ((v : Text) → (D.view e.conn).present (vlan_member_key v port) ≡ false)
      → ((f : Text)
          → (f ≡ deny_table port) ⊎ ((D.view e.conn).bound (acl_table_key f) port ≡ false))
      → (ensure_eapol_trap c port e).1 ≡ ok tt
      → Shown c D port started
  ensure_eapol_trap-Shown plain no_member no_binding h =
      let rules = start_ops-rules port (D.view e.conn) in
      rw (started-view plain h, (ensure_eapol_trap-wrote h).2)
        (record {
          denies = rules.1;
          permits = rules.2;
          member = λ v. start_ops-member v port (D.view e.conn) ∙ no_member v;
          binds = λ f. elim (Bool-cases (text_eq f (deny_table port))) [
            | inl own ↦ inl ((text_eq_iff f (deny_table port)).0 own)
            | inr other ↦
                let ne : f ≢ deny_table port =
                  λ q. ground (arith, text_eq_iff f (deny_table port)) in
                elim (no_binding f) [
                  | inl own ↦ inl own
                  | inr none_bound ↦ inr (start_ops-binds f port (D.view e.conn) ne ∙ none_bound)
                ]
          ];
        })
