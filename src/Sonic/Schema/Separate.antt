-- ===== src/Sonic/Schema/Separate.antt =====
-- crates/enforce-sonic/src/schema.rs: the operations of one port and the keys of another.
use usg_authenticator.Prelude.{
  ◌≡◌, ◌≢◌, refl, sym, ◌∙◌, [], ◌∷◌, ◌++◌, Text, codes, Option, none, some, text_eq_iff,
  append_cancel_left, All, arith,
}
use usg_authenticator.Sonic.Schema.{
  Desired, transition, vlan_delta, filter_delta, open_delta, vlan_member_key, deny_rule_key,
  eapol_permit_key, acl_table_key, deny_table,
}
use usg_authenticator.Sonic.Schema.Keys.{
  vlan_member_key-ne-deny, vlan_member_key-ne-permit, vlan_member_key-ne-acl, deny-ne-acl,
  permit-ne-acl, acl_table_key-injective,
}
use usg_authenticator.Sonic.Schema.View.{
  View, perform, perform-append, vlan_delta-other, filter_delta-other, open_delta-other,
}

-- A port name without the separator of the keys.
abbrev pub IsName : Text → Type 0
IsName p = All (λ c. c ≢ b'|') p

first_bar :
    (p q a b : Text) → IsName p → IsName q → p ++ (b'|' ∷ a) ≡ q ++ (b'|' ∷ b) → (p ≡ q) × (a ≡ b)
first_bar [] [] a b h k e = ground arith
first_bar [] (d ∷ q) a b h k e = ground arith
first_bar (c ∷ p) [] a b h k e = ground arith
first_bar (c ∷ p) (d ∷ q) a b h k e = ground (arith, first_bar p q a b)

not-IsName : (u q : Text) → ¬ IsName (u ++ (b'|' ∷ q))
not-IsName [] q h = h.0 refl
not-IsName (c ∷ u) q h = not-IsName u q h.1

last_bar : (v u p q : Text) → IsName p → IsName q → v ++ (b'|' ∷ p) ≡ u ++ (b'|' ∷ q) → p ≡ q
last_bar [] [] p q h k e = cc
last_bar [] (d ∷ u) p q h k e =
    let same : p ≡ u ++ (b'|' ∷ q) = cc in absurd (not-IsName u q (rw same at h))
last_bar (c ∷ v) [] p q h k e =
    let same : q ≡ v ++ (b'|' ∷ p) = cc in absurd (not-IsName v p (rw same at k))
last_bar (c ∷ v) (d ∷ u) p q h k e = last_bar v u p q h k (cc)

module _ (p q : Text) (hp : IsName p) (hq : IsName q) (apart : p ≢ q) where
  member-ne-member : (v u : Text) → vlan_member_key v q ≢ vlan_member_key u p
  unfolding vlan_member_key
  member-ne-member v u e =
      apart (sym (last_bar v u q p hq hp (append_cancel_left (codes "VLAN_MEMBER|Vlan") _ _ e)))

  deny-ne-deny : deny_rule_key q ≢ deny_rule_key p
  unfolding deny_rule_key
  deny-ne-deny e =
      apart (sym (first_bar q p _ _ hq hp (append_cancel_left (codes "ACL_RULE|DOT1X_") _ _ e)).0)

  permit-ne-permit : eapol_permit_key q ≢ eapol_permit_key p
  unfolding eapol_permit_key
  permit-ne-permit e =
      apart (sym (first_bar q p _ _ hq hp (append_cancel_left (codes "ACL_RULE|DOT1X_") _ _ e)).0)

  deny-ne-permit : deny_rule_key q ≢ eapol_permit_key p
  unfolding deny_rule_key eapol_permit_key
  deny-ne-permit e =
      apart (sym (first_bar q p _ _ hq hp (append_cancel_left (codes "ACL_RULE|DOT1X_") _ _ e)).0)

  permit-ne-deny : eapol_permit_key q ≢ deny_rule_key p
  unfolding deny_rule_key eapol_permit_key
  permit-ne-deny e =
      apart (sym (first_bar q p _ _ hq hp (append_cancel_left (codes "ACL_RULE|DOT1X_") _ _ e)).0)

  module _ (old new : Desired) (w : View) where
    abbrev first_view : View
    first_view = perform (vlan_delta p old.vlan new.vlan) w

    abbrev second_view : View
    second_view = perform (filter_delta p old.filter_id new.filter_id) first_view

    abbrev after : View
    after = perform (transition p old new) w

    split_after : after ≡ perform (open_delta p old.authorized new.authorized) second_view
    unfolding transition
    split_after =
        perform-append (vlan_delta p old.vlan new.vlan) _ w
        ∙ perform-append (filter_delta p old.filter_id new.filter_id) _ first_view

    -- A key that the transition does not touch.
    untouched :
        (j : Text)
        → ((v : Text) → j ≢ vlan_member_key v p)
        → ((f : Text) → j ≢ acl_table_key f)
        → j ≢ deny_rule_key p
        → j ≢ eapol_permit_key p
        → after.present j ≡ w.present j
    untouched j nv nf nd np = rw split_after (
        (open_delta-other p second_view old.authorized new.authorized j j nd np
          (nf (deny_table p))).0
        ∙ filter_delta-other p first_view old.filter_id new.filter_id j nf
        ∙ (vlan_delta-other p w old.vlan new.vlan j j nv).0)

    -- Another port's binding to a filter's table.
    filter_delta-apart :
        (o n : Option Text) (f : Text)
        → (perform (filter_delta p o n) first_view).bound (acl_table_key f) q
          ≡ first_view.bound (acl_table_key f) q
    unfolding filter_delta
    filter_delta-apart none none f = refl
    filter_delta-apart none (some y) f = ground (arith, text_eq_iff p q)
    filter_delta-apart (some x) none f = ground (arith, text_eq_iff p q)
    filter_delta-apart (some x) (some y) f = ground (arith, text_eq_iff p q)

    binding_untouched :
        (f : Text)
        → f ≢ deny_table p
        → after.bound (acl_table_key f) q ≡ w.bound (acl_table_key f) q
    binding_untouched f ne = rw split_after (
        (open_delta-other p second_view old.authorized new.authorized (acl_table_key f) q
          (λ e. deny-ne-acl p f (sym e)) (λ e. permit-ne-acl p f (sym e))
          (λ e. ne (acl_table_key-injective f (deny_table p) e))).1
        ∙ filter_delta-apart old.filter_id new.filter_id f
        ∙ (vlan_delta-other p w old.vlan new.vlan (acl_table_key f) q
            (λ v e. vlan_member_key-ne-acl v p f (sym e))).1)

-- A transition of one port leaves another port as it was, if no name holds the separator of the
-- keys: the other port's two ACL rules, its VLAN memberships, and its binding to every ACL table
-- but the deny table of the port that changes.
pub transition_isolates :
    (p q : Text) (old new : Desired) (w : View) (v f : Text)
    → IsName p
    → IsName q
    → p ≢ q
    → f ≢ deny_table p
    → let w' = perform (transition p old new) w in
      (w'.present (deny_rule_key q) ≡ w.present (deny_rule_key q))
      × (w'.present (eapol_permit_key q) ≡ w.present (eapol_permit_key q))
      × (w'.present (vlan_member_key v q) ≡ w.present (vlan_member_key v q))
      × (w'.bound (acl_table_key f) q ≡ w.bound (acl_table_key f) q)
transition_isolates p q old new w v f hp hq apart ne = (
  untouched p q hp hq apart old new w (deny_rule_key q)
      (λ u e. vlan_member_key-ne-deny u p q (sym e)) (λ u. deny-ne-acl q u)
      (deny-ne-deny p q hp hq apart) (deny-ne-permit p q hp hq apart),
  untouched p q hp hq apart old new w (eapol_permit_key q)
      (λ u e. vlan_member_key-ne-permit u p q (sym e)) (λ u. permit-ne-acl q u)
      (permit-ne-deny p q hp hq apart) (permit-ne-permit p q hp hq apart),
  untouched p q hp hq apart old new w (vlan_member_key v q)
      (λ u. member-ne-member p q hp hq apart v u) (λ u. vlan_member_key-ne-acl v q u)
      (vlan_member_key-ne-deny v q p) (vlan_member_key-ne-permit v q p),
  binding_untouched p q hp hq apart old new w f ne,
)
