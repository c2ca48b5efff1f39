-- ===== src/Sonic/Schema.antt =====
-- crates/enforce-sonic/src/schema.rs: the desired posture of a port and the operations towards it.
pub mod Keys
pub mod View
pub mod Separate
use usg_authenticator.Prelude.{
  ℕ, List, [], ◌∷◌, ◌++◌, Text, codes, Bool, true, false, not, if◌then◌else◌, Option, none, some,
  text_eq,
}
use usg_authenticator.Pae.Effect.{PortAuthorization}
use usg_authenticator.Sonic.Db.{Db, config, Op, hset, del, list_add, list_remove, DbOp}

unfoldable pub eapol_trap_key : Text
eapol_trap_key = codes "COPP_TRAP|eapol"

pub record Desired : Type 0 where
  pub authorized : Bool
  pub vlan : Option Text
  pub filter_id : Option Text

-- `Desired::default()`
abbrev pub closed : Desired
closed = record { authorized = false; vlan = none; filter_id = none }

unfoldable pub from_authorization : PortAuthorization → Desired
from_authorization (PortAuthorization.authorized a) = record {
  authorized = true;
  vlan = a.vlan;
  filter_id = a.filter_id;
}
from_authorization (PortAuthorization.fallback reason vlan) = record {
  authorized = true;
  vlan = vlan;
  filter_id = none;
}
from_authorization PortAuthorization.unauthorized = closed

unfoldable pub vlan_member_key : Text → Text → Text
vlan_member_key vlan port = codes "VLAN_MEMBER|Vlan" ++ (vlan ++ (b'|' ∷ port))

unfoldable pub deny_table : Text → Text
deny_table port = codes "DOT1X_" ++ port

unfoldable pub acl_table_key : Text → Text
acl_table_key name = codes "ACL_TABLE|" ++ name

unfoldable pub deny_rule_key : Text → Text
deny_rule_key port = codes "ACL_RULE|DOT1X_" ++ (port ++ codes "|DENY_ALL")

unfoldable pub eapol_permit_key : Text → Text
eapol_permit_key port = codes "ACL_RULE|DOT1X_" ++ (port ++ codes "|ALLOW_EAPOL")

unfoldable pub ports_field : Text
ports_field = codes "ports"

abbrev on_config : Op → DbOp
on_config op = record { db = config; op = op }

unfoldable pub plan_eapol_trap : List DbOp
plan_eapol_trap =
    on_config (
      hset eapol_trap_key
        ((codes "trap_ids", codes "eapol") ∷ (codes "trap_group", codes "queue4_group1") ∷ []))
    ∷ []

unfoldable pub open_controlled_port : Text → List DbOp
open_controlled_port port =
    on_config (del (deny_rule_key port)) ∷ on_config (del (eapol_permit_key port)) ∷ []

unfoldable pub close_controlled_port : Text → List DbOp
close_controlled_port port =
    on_config (
      hset (acl_table_key (deny_table port))
        ((codes "type", codes "L3") ∷ (codes "stage", codes "ingress") ∷ (ports_field, port) ∷ []))
    ∷ on_config (
        hset (eapol_permit_key port) (
          (codes "PRIORITY", codes "9999")
          ∷ (codes "ETHER_TYPE", codes "0x888E")
          ∷ (codes "PACKET_ACTION", codes "FORWARD")
          ∷ []))
    ∷ on_config (
        hset (deny_rule_key port)
          ((codes "PRIORITY", codes "1") ∷ (codes "PACKET_ACTION", codes "DROP") ∷ []))
    ∷ []

abbrev pub plan_close : Text → List DbOp
plan_close = close_controlled_port

-- `!=` on the optional texts
abbrev pub option_eq : Option Text → Option Text → Bool
option_eq none none = true
option_eq (some a) (some b) = text_eq a b
option_eq _ _ = false

abbrev pub bool_eq : Bool → Bool → Bool
bool_eq true b = b
bool_eq false b = not b

-- `if let Some(x) = o { ops.push(f(x)) }`
abbrev for_some : Option Text → (Text → Op) → List DbOp
for_some none f = []
for_some (some x) f = on_config (f x) ∷ []

unfoldable pub vlan_delta : Text → Option Text → Option Text → List DbOp
vlan_delta port old new =
    if option_eq old new
    then []
    else for_some old (λ prev. del (vlan_member_key prev port))
      ++ for_some new
          (λ next. hset (vlan_member_key next port) ((codes "tagging_mode", codes "untagged") ∷ []))

unfoldable pub filter_delta : Text → Option Text → Option Text → List DbOp
filter_delta port old new =
    if option_eq old new
    then []
    else for_some old (λ prev. list_remove (acl_table_key prev) ports_field port)
      ++ for_some new (λ next. list_add (acl_table_key next) ports_field port)

unfoldable pub open_delta : Text → Bool → Bool → List DbOp
open_delta port old new =
    if bool_eq old new
    then []
    else if new
    then open_controlled_port port
    else close_controlled_port port

unfoldable pub transition : Text → Desired → Desired → List DbOp
transition port old new =
    vlan_delta port old.vlan new.vlan
    ++ (filter_delta port old.filter_id new.filter_id
        ++ open_delta port old.authorized new.authorized)
