-- ===== src/Tests/Databases.antt =====
-- crates/enforce-sonic: a database that confirms what was written, and one that cannot be read.
use usg_authenticator.Prelude.{
  Bool, Result, ◌≡◌, ◌≢◌, refl, arith, [], true, false, Text, codes, ok, err, text_eq, inr, ◌||◌,
}
use usg_authenticator.Pae.Effect.{authorized, unauthorized}
use usg_authenticator.Enforce.{Target}
use usg_authenticator.Sonic.Db.{DbConn}
use usg_authenticator.Sonic.Vlan.{is_valid_vlan}
use usg_authenticator.Sonic.Schema.{
  closed, from_authorization, transition, vlan_delta, filter_delta, open_delta,
  open_controlled_port, vlan_member_key, deny_rule_key, eapol_permit_key, acl_table_key, deny_table,
  eapol_trap_key, plan_eapol_trap, close_controlled_port,
}
use usg_authenticator.Sonic.Schema.Separate.{IsName, transition_isolates}
use usg_authenticator.Sonic.Database.{IsDatabase}
use usg_authenticator.Sonic.Enforcer.Agrees.{apply-succeeds}
use usg_authenticator.Sonic.Enforcer.Startup.{ensure_eapol_trap-ok}
use usg_authenticator.Sonic.Schema.View.{View, Reflects, perform, transition-Reflects}
use usg_authenticator.Sonic.Enforcer.{
  new_enforcer, backend, SonicEnforcer, previous, get_applied, apply, check_vlan, check_filter,
  change_landed, require_present, ensure_eapol_trap, trap_landed,
}
use usg_authenticator.Sonic.Enforcer.FailClosed.{apply-ok, failed_open_not_closed}
use usg_authenticator.Tests.Sessions.{grant}
use usg_authenticator.Std.Parse.{parse_u16, parse_digits}

abbrev pub port : Text
port = codes "e1"

-- Every port is denied in it, and nothing else is there.
abbrev pub denied : View
denied = record {
  present = λ k.
      text_eq k (codes "ACL_RULE|DOT1X_e1|DENY_ALL")
      || text_eq k (codes "ACL_RULE|DOT1X_e1|ALLOW_EAPOL");
  bound = λ k v. false;
}

abbrev pub mirror : DbConn
mirror = record {
  Conn = View;
  Error = Unit;
  apply = λ ops v. (perform ops v, ok tt);
  confirm = λ db key v. ok (v.present key);
}

abbrev blind : DbConn
blind = record {
  Conn = View;
  Error = Unit;
  apply = λ ops v. (perform ops v, ok tt);
  confirm = λ db key v. err tt;
}

abbrev pub fresh : SonicEnforcer mirror
fresh = new_enforcer mirror denied

abbrev unread : SonicEnforcer blind
unread = new_enforcer blind denied

opens : (apply mirror port Target.port (authorized grant) fresh).1 ≡ ok tt
unfolding apply check_vlan from_authorization is_valid_vlan parse_u16 parse_digits check_filter
    change_landed require_present transition vlan_delta filter_delta open_delta open_controlled_port
    vlan_member_key deny_rule_key eapol_permit_key text_eq previous get_applied
opens = refl

apply-ok_example :
    previous port (apply mirror port Target.port (authorized grant) fresh).0.applied
    ≡ from_authorization (authorized grant)
apply-ok_example = (apply-ok mirror port Target.port (authorized grant) fresh opens).1

fails : (apply blind port Target.port (authorized grant) unread).1 ≡ err (backend tt)
unfolding apply check_vlan from_authorization is_valid_vlan parse_u16 parse_digits check_filter
    change_landed require_present
fails = refl

failed_open_not_closed_example :
    let e = (apply blind port Target.port (authorized grant) unread).0 in
    (apply blind port Target.port unauthorized e).0.conn ≡ e.conn
unfolding previous get_applied
failed_open_not_closed_example =
    failed_open_not_closed blind port Target.port Target.port (authorized grant) unread refl fails

denied-Reflects : Reflects port closed denied
unfolding text_eq deny_rule_key eapol_permit_key vlan_member_key
denied-Reflects = record {
  denies = refl;
  permits = refl;
  member = λ v. refl;
  binds = λ f. inr refl;
}

port-IsName : IsName port
port-IsName = ((λ e. ground arith), ((λ e. ground arith), tt))

other-IsName : IsName (codes "e2")
other-IsName = ((λ e. ground arith), ((λ e. ground arith), tt))

fresh-Shown : Reflects port (previous port []) denied
unfolding previous get_applied
fresh-Shown = denied-Reflects

transition-Reflects_example :
    Reflects port
      (from_authorization (authorized grant))
      (perform (transition port closed (from_authorization (authorized grant))) denied)
transition-Reflects_example =
    transition-Reflects port closed (from_authorization (authorized grant)) denied denied-Reflects

pub confirmed : {E : Type 0} {a b : Bool} → ◌≡◌ {A = Result E Bool} (ok a) (ok b) → a ≡ b
confirmed h = ground arith

abbrev pub mirror-IsDatabase : IsDatabase mirror
mirror-IsDatabase = record {
  view = λ v. v;
  apply_lem = λ ops s plain done. refl;
  confirm_lem = λ key s e. confirmed e;
}

apply-succeeds_example : (apply mirror port Target.port (authorized grant) fresh).1 ≡ ok tt
unfolding from_authorization is_valid_vlan parse_u16 parse_digits
apply-succeeds_example =
    apply-succeeds mirror mirror-IsDatabase port Target.port (authorized grant) fresh refl
      fresh-Shown refl tt refl (λ key. refl)

pub starts : (ensure_eapol_trap mirror port fresh).1 ≡ ok tt
unfolding ensure_eapol_trap trap_landed require_present plan_eapol_trap close_controlled_port
    eapol_trap_key deny_rule_key eapol_permit_key acl_table_key deny_table text_eq
starts = refl

other_table : codes "web" ≢ deny_table port
unfolding deny_table
other_table e = ground arith

ensure_eapol_trap-ok_example :
    let w = (ensure_eapol_trap mirror port fresh).0.conn in
    (w.present eapol_trap_key ≡ true)
    × (w.present (deny_rule_key port) ≡ true)
    × (w.present (eapol_permit_key port) ≡ true)
    × (previous port (ensure_eapol_trap mirror port fresh).0.applied ≡ closed)
    × (w.present (vlan_member_key (codes "20") port)
        ≡ denied.present (vlan_member_key (codes "20") port))
    × (w.bound (acl_table_key (codes "web")) port ≡ denied.bound (acl_table_key (codes "web")) port)
ensure_eapol_trap-ok_example =
    ensure_eapol_trap-ok mirror mirror-IsDatabase port fresh (codes "20") (codes "web") refl
      other_table starts

neighbours : port ≢ codes "e2"
neighbours e = ground arith

transition_isolates_example :
    let new = from_authorization (authorized grant) in
    let w = perform (transition port closed new) denied in
    (w.present (deny_rule_key (codes "e2")) ≡ denied.present (deny_rule_key (codes "e2")))
    × (w.present (eapol_permit_key (codes "e2")) ≡ denied.present (eapol_permit_key (codes "e2")))
    × (w.present (vlan_member_key (codes "20") (codes "e2"))
        ≡ denied.present (vlan_member_key (codes "20") (codes "e2")))
    × (w.bound (acl_table_key (codes "web")) (codes "e2")
        ≡ denied.bound (acl_table_key (codes "web")) (codes "e2"))
transition_isolates_example =
    transition_isolates port (codes "e2") closed (from_authorization (authorized grant)) denied
      (codes "20") (codes "web") port-IsName other-IsName neighbours other_table
