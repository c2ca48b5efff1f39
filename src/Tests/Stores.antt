-- ===== src/Tests/Stores.antt =====
-- crates/enforce-sonic: a store of hashes in memory, and a port that is opened on it.
use usg_authenticator.Prelude.{
  ◌≡◌, refl, List, [], ◌∷◌, Text, codes, Bool, true, false, Option, none, some, ok, text_eq,
  if◌then◌else◌, ◌||◌, arith,
}
use usg_authenticator.Sonic.Db.{DbOp, Op, config, index}
use usg_authenticator.Sonic.Schema.View.{perform}
use usg_authenticator.Sonic.Redis.{Redis, RedisDbConn, apply_ops, apply_one, conn, run_op}
use usg_authenticator.Sonic.Redis.Store.{put_fields, IsHashStore}
use usg_authenticator.Sonic.Redis.Refines.{redis_view, apply_ops-perform}
use usg_authenticator.Prelude.{inr}
use usg_authenticator.Std.Parse.{parse_u16, parse_digits}
use usg_authenticator.Pae.Effect.{authorized}
use usg_authenticator.Enforce.{Target}
use usg_authenticator.Sonic.Vlan.{is_valid_vlan}
use usg_authenticator.Sonic.Schema.{
  from_authorization, transition, vlan_delta, filter_delta, open_delta, open_controlled_port,
  close_controlled_port, vlan_member_key, plan_eapol_trap, eapol_trap_key, deny_rule_key,
  eapol_permit_key, acl_table_key, deny_table,
}
use usg_authenticator.Sonic.Schema.View.{Reflects}
use usg_authenticator.Sonic.Redis.{redis_db, confirm_key}
use usg_authenticator.Sonic.Redis.Refines.{redis-IsDatabase}
use usg_authenticator.Sonic.Enforcer.{
  SonicEnforcer, apply, ensure_eapol_trap, trap_landed, require_present, check_vlan, check_filter,
  change_landed, previous, remember, get_applied, insert_applied,
}
use usg_authenticator.Sonic.Enforcer.Agrees.{Shown, apply-Shown}
use usg_authenticator.Sonic.Enforcer.Startup.{ensure_eapol_trap-Shown}
use usg_authenticator.Tests.Sessions.{grant}

record Store : Type 0 where
  pub present : Text → Bool
  pub field : Text → Text → Option Text
  pub coherent : (k f x : Text) → field k f ≡ some x → present k ≡ true

abbrev empty : Store
empty = record { present = λ k. false; field = λ k f. none; coherent = λ k f x h. ground arith }

-- All the fields of one key are changed.
abbrev change : Text → (Text → Option Text → Option Text) → Store → Store
change k g s = record {
  present = λ j. text_eq j k || s.present j;
  field = λ j f. if text_eq j k then g f (s.field j f) else s.field j f;
  coherent = λ j f x h. ground (arith, s.coherent j f x);
}

abbrev drop_key : Text → Store → Store
drop_key k s = record {
  present = λ j. if text_eq j k then false else s.present j;
  field = λ j f. if text_eq j k then none else s.field j f;
  coherent = λ j f x h. ground (arith, s.coherent j f x);
}

abbrev memory : Redis
memory = record {
  Client = Unit;
  Conn = Store;
  Error = Unit;
  invalid_client_config = tt;
  open_client = λ url. ok tt;
  get_connection = λ client. ok empty;
  hset_multiple = λ k fs s. (change k (λ f x. put_fields fs f x) s, ok tt);
  hset = λ k f v s. (change k (λ g x. if text_eq f g then some v else x) s, ok tt);
  del = λ k s. (drop_key k s, ok tt);
  hget = λ k f s. ok (s.field k f);
  exists = λ k s. ok (s.present k);
}

memory-IsHashStore : IsHashStore memory
memory-IsHashStore = record {
  present = λ s. s.present;
  field = λ s. s.field;
  field_present = λ s k f h. s.coherent k f _ h;
  hset_multiple_lem = λ k fs s h. (λ j. refl, λ j f. refl);
  hset_lem = λ k g x s h. (λ j. refl, λ j f. ground arith);
  del_lem = λ k s h. (λ j. refl, λ j f. refl);
  hget_lem = λ k f s h. ground arith;
  exists_lem = λ k s h. ground arith;
}

abbrev start : RedisDbConn memory
start = record { conns = (4, empty) ∷ [] }

abbrev writes : List DbOp
writes =
    record { db = config; op = Op.list_add (codes "ACL_TABLE|web") (codes "ports") (codes "e1") }
    ∷ record { db = config; op = Op.list_add (codes "ACL_TABLE|web") (codes "ports") (codes "e2") }
    ∷ record {
      db = config;
      op = Op.list_remove (codes "ACL_TABLE|web") (codes "ports") (codes "e1");
    }
    ∷ record { db = config; op = Op.del (codes "ACL_RULE|DOT1X_e1|DENY_ALL") }
    ∷ []

written : (apply_ops memory writes start).1 ≡ ok tt
unfolding apply_ops apply_one conn index run_op text_eq
written = refl

apply_ops-perform_example :
    redis_view memory memory-IsHashStore (apply_ops memory writes start).0
    ≡ perform writes (redis_view memory memory-IsHashStore start)
apply_ops-perform_example =
    apply_ops-perform memory memory-IsHashStore writes start
      ((refl, refl), ((refl, refl), ((refl, refl), ((refl, refl), tt)))) written

-- A daemon on that store: the port is closed at the start and then opened for a VLAN.
abbrev daemon : SonicEnforcer (redis_db memory)
daemon = record { conn = start; applied = [] }

abbrev closed_port : SonicEnforcer (redis_db memory)
closed_port = (ensure_eapol_trap (redis_db memory) (codes "e1") daemon).0

starts : (ensure_eapol_trap (redis_db memory) (codes "e1") daemon).1 ≡ ok tt
unfolding ensure_eapol_trap trap_landed require_present plan_eapol_trap close_controlled_port
    eapol_trap_key deny_rule_key eapol_permit_key acl_table_key deny_table text_eq apply_ops
    apply_one conn index run_op confirm_key
starts = refl

closed-Shown :
    Shown (redis_db memory) (redis-IsDatabase memory memory-IsHashStore) (codes "e1") closed_port
unfolding index memory-IsHashStore
closed-Shown =
    ensure_eapol_trap-Shown (redis_db memory) (redis-IsDatabase memory memory-IsHashStore)
      (codes "e1") daemon refl (λ v. refl) (λ f. inr refl) starts

opens : (apply (redis_db memory) (codes "e1") Target.port (authorized grant) closed_port).1 ≡ ok tt
unfolding apply check_vlan check_filter change_landed from_authorization is_valid_vlan parse_u16
    parse_digits transition vlan_delta filter_delta open_delta open_controlled_port vlan_member_key
    ensure_eapol_trap trap_landed require_present plan_eapol_trap close_controlled_port
    eapol_trap_key deny_rule_key eapol_permit_key acl_table_key deny_table text_eq apply_ops
    apply_one conn index run_op confirm_key previous remember get_applied insert_applied
opens = refl

apply-Shown_example :
    let e' = (apply (redis_db memory) (codes "e1") Target.port (authorized grant) closed_port).0 in
    Shown (redis_db memory) (redis-IsDatabase memory memory-IsHashStore) (codes "e1") e'
    × Reflects
        (codes "e1")
        (from_authorization (authorized grant))
        (redis_view memory memory-IsHashStore e'.conn)
apply-Shown_example =
    apply-Shown (redis_db memory) (redis-IsDatabase memory memory-IsHashStore) (codes "e1")
      Target.port (authorized grant) closed_port refl closed-Shown opens
