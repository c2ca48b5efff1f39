-- ===== src/Sonic/Enforcer.antt =====
-- crates/enforce-sonic/src/enforcer.rs: `SonicEnforcer`, which applies a transition and confirms it.
pub mod FailClosed
pub mod Agrees
pub mod Startup
pub mod Display
use usg_authenticator.Prelude.{
  ℕ, List, [], ◌∷◌, ◌++◌, Text, Bool, true, false, if◌then◌else◌, Option, none, some, text_eq,
  Result, ok, err, ◌>>=◌, map_err,
}
use usg_authenticator.Enforce.{Target}
use usg_authenticator.Pae.Effect.{PortAuthorization}
use usg_authenticator.Sonic.Db.{Db, config, DbConn}
use usg_authenticator.Sonic.Vlan.{is_valid_vlan}
use usg_authenticator.Sonic.Schema.{
  Desired, closed, from_authorization, transition, plan_eapol_trap, plan_close, eapol_trap_key,
  deny_rule_key, vlan_member_key, acl_table_key,
}

-- crates/enforce-sonic/src/error.rs
pub data SonicError {ℓ} (E : Type ℓ) : Type ℓ where
  backend : E → SonicError E
  unconfirmed : Db → Text → SonicError E
  invalid_vlan : Text → SonicError E

-- The `applied` map.
abbrev pub Applied : Type 0
Applied = List (Text × Desired)

-- `lock().ok()` of the mutex around the map. A lock fails only where the mutex is poisoned, by a thread
-- that panics while it holds it; `previous` and `remember`, which alone take it, have nothing that
-- panics in between.
abbrev lock : Applied → Option Applied
lock m = some m

-- `HashMap::get` and `HashMap::insert`.
unfoldable pub get_applied : Text → Applied → Option Desired
get_applied p [] = none
get_applied p ((q, d) ∷ m) = if text_eq q p then some d else get_applied p m

unfoldable pub insert_applied : Text → Desired → Applied → Applied
insert_applied p d [] = (p, d) ∷ []
insert_applied p d ((q, e) ∷ m) = if text_eq q p then (q, d) ∷ m else (q, e) ∷ insert_applied p d m

-- `and_then(|m| m.get(port).cloned())`
abbrev cloned : Text → Option Applied → Option Desired
cloned port none = none
cloned port (some m) = get_applied port m

abbrev unwrap_or_default : Option Desired → Desired
unwrap_or_default none = closed
unwrap_or_default (some d) = d

unfoldable pub previous : Text → Applied → Desired
previous port applied = unwrap_or_default (cloned port (lock applied))

-- `if let Ok(mut m) = … { m.insert(…); }`
abbrev insert_locked : Text → Desired → Applied → Option Applied → Applied
insert_locked port desired applied none = applied
insert_locked port desired applied (some m) = insert_applied port desired m

unfoldable pub remember : Text → Desired → Applied → Applied
remember port desired applied = insert_locked port desired applied (lock applied)

pub record SonicEnforcer (c : DbConn) : Type 0 where
  pub conn : c.Conn
  pub applied : Applied

module _ (c : DbConn) where
  -- `SonicEnforcer::new`
  abbrev pub new_enforcer : c.Conn → SonicEnforcer c
  new_enforcer conn = record { conn = conn; applied = [] }

  abbrev pub Checked : Type 0
  Checked = Result (SonicError c.Error) (Unit {0})

  abbrev pub Outcome : Type 0
  Outcome = SonicEnforcer c × Checked

  unfoldable pub require_present : Db → Text → c.Conn → Checked
  require_present db key s = do
    found ← map_err backend (c.confirm db key s)
    if found then ok tt else err (unconfirmed db key)

  unfoldable pub require_absent : Db → Text → c.Conn → Checked
  require_absent db key s = do
    found ← map_err backend (c.confirm db key s)
    if found then err (unconfirmed db key) else ok tt

  -- Once the operations are written: the confirmation decides whether the posture is remembered.
  abbrev finish : Text → Desired → SonicEnforcer c → Checked → Outcome
  finish port d e (ok _) = (record e { applied = remember port d e.applied }, ok tt)
  finish port d e (err x) = (e, err x)

  abbrev written :
      Text
      → Desired
      → (c.Conn → Checked)
      → SonicEnforcer c
      → c.Conn × Result c.Error (Unit {0})
      → Outcome
  written port d check e (s, ok _) = finish port d (record e { conn = s }) (check s)
  written port d check e (s, err x) = (record e { conn = s }, err (backend x))

  unfoldable pub trap_landed : Text → c.Conn → Checked
  unfolding require_present
  trap_landed port s = do
    _ ← require_present config eapol_trap_key s
    require_present config (deny_rule_key port) s

  unfoldable pub ensure_eapol_trap : Text → SonicEnforcer c → Outcome
  ensure_eapol_trap port e =
      written port closed (trap_landed port) e (c.apply (plan_eapol_trap ++ plan_close port) e.conn)

  unfoldable pub check_vlan : Option Text → Checked
  check_vlan none = ok tt
  check_vlan (some vlan) = if is_valid_vlan vlan then ok tt else err (invalid_vlan vlan)

  unfoldable pub check_filter : Option Text → c.Conn → Checked
  check_filter none s = ok tt
  check_filter (some filter) s = require_present config (acl_table_key filter) s

  -- The load-bearing change: the VLAN membership, the missing deny rule, or the deny rule.
  unfoldable pub change_landed : Text → Desired → c.Conn → Checked
  change_landed port new s =
      if new.authorized
      then elim new.vlan [
        | some vlan ↦ require_present config (vlan_member_key vlan port) s
        | none ↦ require_absent config (deny_rule_key port) s
      ]
      else require_present config (deny_rule_key port) s

  abbrev commit : Text → Desired → SonicEnforcer c → Outcome
  commit port new e =
      written port new (change_landed port new) e
        (c.apply (transition port (previous port e.applied) new) e.conn)

  abbrev apply_checked : Text → Desired → SonicEnforcer c → Checked → Outcome
  apply_checked port new e (ok _) = commit port new e
  apply_checked port new e (err x) = (e, err x)

  unfoldable pub apply : Text → Target → PortAuthorization → SonicEnforcer c → Outcome
  apply port target auth e =
      let new = from_authorization auth in
      apply_checked port new e (do _ ← check_vlan new.vlan; check_filter new.filter_id e.conn)
