-- ===== src/Sonic/Vlan.antt =====
-- crates/enforce-sonic/src/schema.rs: `is_valid_vlan`.
use usg_authenticator.Prelude.{
  ℕ, ◌≤◌, ◌≡◌, ◌∷◌, Bool, true, false, ◌&&◌, leb, Option, none, some, Text, arith, Option-cases,
  inl, inr,
}
use usg_authenticator.Std.Parse.{
  parse_u16, AllDigits, value_from, without_plus, parse_digits-value_from, parse_u16-some,
}

abbrev in_range : Option ℕ → Bool
in_range none = false
in_range (some id) = leb 1 id && leb id 4094

unfoldable pub is_valid_vlan : Text → Bool
is_valid_vlan vlan = in_range (parse_u16 vlan)

-- Every decimal text with a value from 1 to 4094 is a VLAN id.
pub is_valid_vlan_of_digits :
    (c : ℕ) (cs : Text)
    → AllDigits (c ∷ cs)
    → 1 ≤ value_from 0 (c ∷ cs)
    → value_from 0 (c ∷ cs) ≤ 4094
    → is_valid_vlan (c ∷ cs) ≡ true
unfolding is_valid_vlan parse_u16
is_valid_vlan_of_digits c cs d lo hi = ground (arith, parse_digits-value_from (c ∷ cs) 0)

-- A VLAN text that is accepted is a decimal number from 1 to 4094, with or without a plus sign
-- before it.
pub is_valid_vlan-true :
    (vlan : Text)
    → is_valid_vlan vlan ≡ true
    → let digits = without_plus vlan in
      AllDigits digits × (1 ≤ value_from 0 digits) × (value_from 0 digits ≤ 4094)
unfolding is_valid_vlan
is_valid_vlan-true vlan h = elim (Option-cases (parse_u16 vlan)) [
  | inl e ↦ ground arith
  | inr (v, e) ↦ ground (arith, parse_u16-some vlan v e)
]
