-- ===== src/Sonic/Enforcer/Agrees.antt =====
-- crates/enforce-sonic/src/enforcer.rs: the posture that is remembered for a port and what the
-- database shows of it, over any connection that keeps the contract of `DbConn`.
use usg_authenticator.Prelude.{
  ◌≡◌, refl, List, [], ◌∷◌, ◌++◌, Text, Bool, true, false, Option, none, some, text_eq, text_eq_iff,
  All, Result, ok, arith, inl, inr, Option-cases,
}
use usg_authenticator.Pae.Effect.{PortAuthorization}
use usg_authenticator.Enforce.{Target}
use usg_authenticator.Sonic.Db.{config, DbOp, DbConn}
use usg_authenticator.Sonic.Database.{is_plain, IsPlainOp, IsDatabase}
use usg_authenticator.Sonic.Schema.{
  Desired, from_authorization, transition, vlan_delta, filter_delta, open_delta,
  open_controlled_port, close_controlled_port, plan_close, deny_rule_key, vlan_member_key,
  ports_field,
}
use usg_authenticator.Sonic.Schema.View.{Reflects, transition-Reflects}
use usg_authenticator.Sonic.Enforcer.{
  SonicEnforcer, previous, require_present, check_vlan, check_filter, change_landed, require_absent,
  apply,
}
use usg_authenticator.Sonic.Enforcer.FailClosed.{apply-ok, IsVlan, HasTable}

abbrev pub AllPlain : List DbOp → Type 0
AllPlain = All IsPlainOp

pub AllPlain-append : (xs ys : List DbOp) → AllPlain xs → AllPlain ys → AllPlain (xs ++ ys)
AllPlain-append [] ys h k = k
AllPlain-append (x ∷ xs) ys h k = (h.0, AllPlain-append xs ys h.1 k)

module _ (port : Text) (plain : is_plain port ≡ true) where
  vlan_delta-AllPlain : (o n : Option Text) → AllPlain (vlan_delta port o n)
  unfolding vlan_delta ports_field text_eq
  vlan_delta-AllPlain none none = tt
  vlan_delta-AllPlain none (some n) = ((refl, refl), tt)
  vlan_delta-AllPlain (some o) none = ((refl, refl), tt)
  vlan_delta-AllPlain (some o) (some n) = ground arith

  filter_delta-AllPlain : (o n : Option Text) → AllPlain (filter_delta port o n)
  unfolding filter_delta
  filter_delta-AllPlain none none = tt
  filter_delta-AllPlain none (some n) = ((refl, plain), tt)
  filter_delta-AllPlain (some o) none = ((refl, refl), tt)
  filter_delta-AllPlain (some o) (some n) = ground arith

  pub plan_close-AllPlain : AllPlain (plan_close port)
  unfolding close_controlled_port ports_field text_eq
  plan_close-AllPlain = ground arith

  open_delta-AllPlain : (o n : Bool) → AllPlain (open_delta port o n)
  unfolding open_delta open_controlled_port
  open_delta-AllPlain true true = tt
  open_delta-AllPlain true false = plan_close-AllPlain
  open_delta-AllPlain false true = ((refl, refl), ((refl, refl), tt))
  open_delta-AllPlain false false = tt

  -- What a transition writes into lists is the port's name.
  transition-AllPlain : (old new : Desired) → AllPlain (transition port old new)
  unfolding transition
  transition-AllPlain old new =
      AllPlain-append (vlan_delta port old.vlan new.vlan) _ (vlan_delta-AllPlain old.vlan new.vlan)
        (AllPlain-append (filter_delta port old.filter_id new.filter_id) _
          (filter_delta-AllPlain old.filter_id new.filter_id)
          (open_delta-AllPlain old.authorized new.authorized))

module _ (c : DbConn) (D : IsDatabase c) where
  abbrev pub Shown : Text → SonicEnforcer c → Type 0
  Shown port e = Reflects port (previous port e.applied) (D.view e.conn)

  apply-wrote :
      (port : Text) (t : Target) (auth : PortAuthorization) (e : SonicEnforcer c)
      → (apply c port t auth e).1 ≡ ok tt
      → let ops = transition port (previous port e.applied) (from_authorization auth) in
        ((c.apply ops e.conn).1 ≡ ok tt) × ((apply c port t auth e).0.conn ≡ (c.apply ops e.conn).0)
  unfolding apply check_vlan check_filter
  apply-wrote port t auth e h = ground arith

  -- On a database that keeps its contract, and for a port with a plain name: if the database shows
  -- the posture that is remembered for the port, and apply succeeds, it shows the new posture, and
  -- that is the one remembered.
  pub apply-Shown :
      (port : Text) (t : Target) (auth : PortAuthorization) (e : SonicEnforcer c)
      → is_plain port ≡ true
      → Shown port e
      → (apply c port t auth e).1 ≡ ok tt
      → let e' = (apply c port t auth e).0 in
        Shown port e' × Reflects port (from_authorization auth) (D.view e'.conn)
  apply-Shown port t auth e plain shown h =
      let old = previous port e.applied in
      let new = from_authorization auth in
      let wrote = apply-wrote port t auth e h in
      let seen : Reflects port new (D.view (apply c port t auth e).0.conn) =
        rw
          (
            wrote.1,
            D.apply_lem (transition port old new) e.conn (transition-AllPlain port plain old new)
                wrote.0,
          )
          (transition-Reflects port old new (D.view e.conn) shown) in
      (rw ((apply-ok c port t auth e h).1) seen, seen)

  confirmed :
      (port : Text) (d : Desired) (s : c.Conn)
      → Reflects port d (D.view s)
      → ((key : Text) → c.confirm config key s ≡ ok ((D.view s).present key))
      → change_landed c port d s ≡ ok tt
  unfolding change_landed require_present require_absent
  confirmed port d s r reads = elim (Option-cases d.vlan) [
    | inl no_vlan ↦ ground (arith, reads (deny_rule_key port), r.denies)
    | inr (v, vlan) ↦ ground (
      arith,
      reads (deny_rule_key port),
      r.denies,
      reads (vlan_member_key v port),
      r.member v,
      text_eq_iff v v,
    )
  ]

  -- The operations of a decision, applied.
  abbrev attempt : Text → PortAuthorization → SonicEnforcer c → c.Conn × Result c.Error (Unit {0})
  attempt port auth e =
      c.apply (transition port (previous port e.applied) (from_authorization auth)) e.conn

  -- On a database that keeps its contract and shows what is remembered of the port, apply succeeds
  -- for a port with a plain name, if the VLAN is a valid id or there is none, the ACL table is
  -- found or there is none, the operations are written, and the database that was written can be
  -- read.
  pub apply-succeeds :
      (port : Text) (t : Target) (auth : PortAuthorization) (e : SonicEnforcer c)
      → is_plain port ≡ true
      → Shown port e
      → IsVlan (from_authorization auth).vlan
      → HasTable c (from_authorization auth).filter_id e.conn
      → (attempt port auth e).1 ≡ ok tt
      → ((key : Text)
          → c.confirm config key (attempt port auth e).0
            ≡ ok ((D.view (attempt port auth e).0).present key))
      → (apply c port t auth e).1 ≡ ok tt
  unfolding apply check_vlan check_filter require_present
  apply-succeeds port t auth e plain shown vlan table wrote reads =
      let old = previous port e.applied in
      let new = from_authorization auth in
      let w = c.apply (transition port old new) e.conn in
      let seen : Reflects port new (D.view w.0) =
        rw
          (D.apply_lem (transition port old new) e.conn (transition-AllPlain port plain old new)
            wrote)
          (transition-Reflects port old new (D.view e.conn) shown) in
      let landed = confirmed port new w.0 seen reads in
      elim (Option-cases new.vlan) [
        | inl a ↦ elim (Option-cases new.filter_id) [
          | inl b ↦ ground arith
          | inr (f, b) ↦ ground arith
        ]
        | inr (v, a) ↦ elim (Option-cases new.filter_id) [
          | inl b ↦ ground arith
          | inr (f, b) ↦ ground arith
        ]
      ]
