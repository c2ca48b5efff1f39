-- ===== src/Sonic/Enforcer/FailClosed.antt =====
-- crates/enforce-sonic/src/enforcer.rs: what a success of `apply` says of the databases, and what a
-- failure leaves behind.
use usg_authenticator.Prelude.{
  ◌≡◌, ◌≤◌, refl, [], ◌∷◌, Text, Bool, true, false, if◌then◌else◌, Option, none, some, text_eq,
  text_eq_iff, ok, err, arith, inl, inr, Option-cases,
}
use usg_authenticator.Pae.Effect.{PortAuthorization}
use usg_authenticator.Enforce.{Target}
use usg_authenticator.Sonic.Db.{config, DbConn}
use usg_authenticator.Sonic.Vlan.{is_valid_vlan, is_valid_vlan-true}
use usg_authenticator.Std.Parse.{AllDigits, value_from, without_plus}
use usg_authenticator.Sonic.Schema.{
  Desired, closed, from_authorization, transition, deny_rule_key, vlan_member_key, acl_table_key,
  vlan_delta, filter_delta, open_delta,
}
use usg_authenticator.Sonic.Enforcer.{
  SonicError, SonicEnforcer, Applied, get_applied, insert_applied, previous, remember,
  require_present, require_absent, check_vlan, check_filter, change_landed, apply,
}

get_applied-insert_applied :
    (p q : Text) (d : Desired) (m : Applied)
    → get_applied q (insert_applied p d m) ≡ (if text_eq p q then some d else get_applied q m)
unfolding get_applied insert_applied
get_applied-insert_applied p q d [] = refl
get_applied-insert_applied p q d ((r, e) ∷ m) =
    ground
      (arith, text_eq_iff r p, text_eq_iff r q, text_eq_iff p q, get_applied-insert_applied p q d m)

pub previous-remember :
    (p q : Text) (d : Desired) (m : Applied)
    → previous q (remember p d m) ≡ (if text_eq p q then d else previous q m)
unfolding previous remember
previous-remember p q d m = ground (arith, get_applied-insert_applied p q d m)

abbrev pub IsVlan : Option Text → Type 0
IsVlan none = Unit
IsVlan (some vlan) = is_valid_vlan vlan ≡ true

-- A VLAN, where there is one, is a decimal number from 1 to 4094, with or without a plus sign.
abbrev pub IsNumber : Option Text → Type 0
IsNumber none = Unit
IsNumber (some vlan) =
    AllDigits (without_plus vlan)
    × (1 ≤ value_from 0 (without_plus vlan))
    × (value_from 0 (without_plus vlan) ≤ 4094)

IsVlan-IsNumber : (vlan : Option Text) → IsVlan vlan → IsNumber vlan
IsVlan-IsNumber none h = tt
IsVlan-IsNumber (some vlan) h = is_valid_vlan-true vlan h

module _ (c : DbConn) where
  -- What a posture must look like in the databases, by a read of them.
  abbrev LandedAs : Text → Bool → Option Text → c.Conn → Type 0
  LandedAs port false vlan s = c.confirm config (deny_rule_key port) s ≡ ok true
  LandedAs port true (some vlan) s = c.confirm config (vlan_member_key vlan port) s ≡ ok true
  LandedAs port true none s = c.confirm config (deny_rule_key port) s ≡ ok false

  abbrev pub Landed : Text → Desired → c.Conn → Type 0
  Landed port d s = LandedAs port d.authorized d.vlan s

  abbrev pub HasTable : Option Text → c.Conn → Type 0
  HasTable none s = Unit
  HasTable (some filter) s = c.confirm config (acl_table_key filter) s ≡ ok true

  change_landed-Landed :
      (port : Text) (d : Desired) (s : c.Conn) → change_landed c port d s ≡ ok tt → Landed port d s
  unfolding change_landed require_present require_absent
  change_landed-Landed port d s h = ground arith

  -- Where apply reports success, its change was read back from the databases as they then are (the
  -- deny rule of a closed port, the membership of a VLAN, or the absence of the deny rule where no
  -- VLAN is granted), the new posture is the one that is remembered, its VLAN is a valid id, a
  -- decimal number from 1 to 4094 with or without a plus sign, and its ACL table was found before
  -- anything was written.
  pub apply-ok :
      (port : Text) (t : Target) (auth : PortAuthorization) (e : SonicEnforcer c)
      → (apply c port t auth e).1 ≡ ok tt
      → let d = from_authorization auth in
        let e' = (apply c port t auth e).0 in
        Landed port d e'.conn
        × (previous port e'.applied ≡ d)
        × IsVlan d.vlan
        × IsNumber d.vlan
        × HasTable d.filter_id e.conn
  unfolding apply check_vlan check_filter require_present
  apply-ok port t auth e h =
      let d = from_authorization auth in
      let s = (c.apply (transition port (previous port e.applied) d) e.conn).0 in
      ground (
        arith,
        change_landed-Landed port d s,
        previous-remember port port d e.applied,
        text_eq_iff port port,
        IsVlan-IsNumber d.vlan,
      )

  -- A failure changes no remembered posture.
  pub apply-err :
      (port : Text) (t : Target) (auth : PortAuthorization) (e : SonicEnforcer c)
      {x : SonicError c.Error}
      → (apply c port t auth e).1 ≡ err x
      → (apply c port t auth e).0.applied ≡ e.applied
  unfolding apply
  apply-err port t auth e h = ground arith

text_eq_self : (s : Text) → text_eq s s ≡ true
text_eq_self s = (text_eq_iff s s).1 refl

-- A transition to the posture that holds already writes nothing.
pub transition_self : (port : Text) (d : Desired) → transition port d d ≡ []
unfolding transition vlan_delta filter_delta open_delta
transition_self port d = elim (Option-cases d.vlan) [
  | inl v ↦ elim (Option-cases d.filter_id) [
    | inl f ↦ ground arith
    | inr (f, e) ↦ ground (arith, text_eq_self f)
  ]
  | inr (v, e) ↦ elim (Option-cases d.filter_id) [
    | inl f ↦ ground (arith, text_eq_self v)
    | inr (f, e') ↦ ground (arith, text_eq_self v, text_eq_self f)
  ]
]

module _ (c : DbConn) (port : Text) where
  close_again :
      (u : Target) (e : SonicEnforcer c)
      → previous port e.applied ≡ closed
      → (apply c port u PortAuthorization.unauthorized e).0.conn ≡ (c.apply [] e.conn).0
  unfolding apply from_authorization check_vlan check_filter
  close_again u e same = ground (arith, transition_self port closed)

  -- If a port that is remembered as closed is opened and that fails in any way, closing it
  -- afterwards applies no operation.
  pub failed_open_not_closed :
      (t u : Target) (auth : PortAuthorization) (e : SonicEnforcer c) {x : SonicError c.Error}
      → previous port e.applied ≡ closed
      → (apply c port t auth e).1 ≡ err x
      → let e' = (apply c port t auth e).0 in
        (apply c port u PortAuthorization.unauthorized e').0.conn ≡ (c.apply [] e'.conn).0
  failed_open_not_closed t u auth e same failed =
      close_again u (apply c port t auth e).0 (rw (apply-err c port t auth e failed) same)
