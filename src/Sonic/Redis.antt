-- ===== src/Sonic/Redis.antt =====
-- crates/enforce-sonic/src/redis_conn.rs: the connection to the SONiC databases over Redis.
pub mod Items
pub mod Store
pub mod Refines
use usg_authenticator.Prelude.{
  ℕ, ◌==◌, List, [], ◌∷◌, ◌++◌, Text, Bool, true, false, if◌then◌else◌, Option, none, some, Result,
  ok, err, ok_or, ◌>>=◌,
}
use usg_authenticator.Std.Decimal.{decimal}
use usg_authenticator.Sonic.Db.{
  Db, config, appl, asic, state, index, Op, hset, del, list_add, list_remove, DbOp, DbConn,
}
use usg_authenticator.Sonic.Redis.Items.{items, join, contains, without}

-- The crate `redis`, which is not part of the repository: a client, the state behind a multiplexed
-- connection to one database, and the commands that the backend sends.
pub record Redis : Type 1 where
  pub Client : Type 0
  pub Conn : Type 0
  pub Error : Type 0
  pub invalid_client_config : Error
  pub open_client : Text → Result Error Client
  pub get_connection : Client → Result Error Conn
  pub hset_multiple : Text → List (Text × Text) → Conn → Conn × Result Error (Unit {0})
  pub hset : Text → Text → Text → Conn → Conn × Result Error (Unit {0})
  pub del : Text → Conn → Conn × Result Error (Unit {0})
  pub hget : Text → Text → Conn → Result Error (Option Text)
  pub exists : Text → Conn → Result Error Bool

abbrev pub connected_dbs : List Db
connected_dbs = config ∷ appl ∷ asic ∷ state ∷ []

abbrev pub items_of : Option Text → List Text
items_of none = []
items_of (some s) = items s

abbrev pub pushed : Text → List Text → List Text
pushed value parts = if contains value parts then parts else parts ++ (value ∷ [])

module _ (R : Redis) where
  -- One connection for the index of each database.
  pub record RedisDbConn : Type 0 where
    pub conns : List (ℕ × R.Conn)

  abbrev pub insert : ℕ → R.Conn → List (ℕ × R.Conn) → List (ℕ × R.Conn)
  insert i c [] = (i, c) ∷ []
  insert i c ((j, d) ∷ rest) = if j == i then (i, c) ∷ rest else (j, d) ∷ insert i c rest

  abbrev pub get : ℕ → List (ℕ × R.Conn) → Option R.Conn
  get i [] = none
  get i ((j, d) ∷ rest) = if j == i then some d else get i rest

  abbrev connect_one : Text → Db → List (ℕ × R.Conn) → Result R.Error (List (ℕ × R.Conn))
  connect_one base_url db conns = do
    client ← R.open_client (base_url ++ (b'/' ∷ decimal (index db)))
    conn ← R.get_connection client
    ok (insert (index db) conn conns)

  abbrev connect_all : Text → List Db → List (ℕ × R.Conn) → Result R.Error (List (ℕ × R.Conn))
  connect_all base_url [] conns = ok conns
  connect_all base_url (db ∷ dbs) conns =
      connect_one base_url db conns >>= λ more. connect_all base_url dbs more

  unfoldable pub connect : Text → Result R.Error RedisDbConn
  connect base_url = do conns ← connect_all base_url connected_dbs []; ok (record { conns = conns })

  unfoldable pub conn : Db → RedisDbConn → Result R.Error R.Conn
  unfolding index
  conn db r = ok_or (get (index db) r.conns) R.invalid_client_config

  abbrev Done : Type 0
  Done = R.Conn × Result R.Error (Unit {0})

  abbrev add_item : Text → Text → Text → R.Conn → Result R.Error (Option Text) → Done
  add_item key field value c (err e) = (c, err e)
  add_item key field value c (ok current) =
      R.hset key field (join (pushed value (items_of current))) c

  abbrev remove_item : Text → Text → Text → R.Conn → Result R.Error (Option Text) → Done
  remove_item key field value c (err e) = (c, err e)
  remove_item key field value c (ok none) = (c, ok tt)
  remove_item key field value c (ok (some s)) = R.hset key field (join (without value (items s))) c

  -- The `match` on one operation, on the connection of its database.
  unfoldable pub run_op : Op → R.Conn → Done
  run_op (hset key fields) c = R.hset_multiple key fields c
  run_op (del key) c = R.del key c
  run_op (list_add key field value) c = add_item key field value c (R.hget key field c)
  run_op (list_remove key field value) c = remove_item key field value c (R.hget key field c)

  abbrev Outcome : Type 0
  Outcome = RedisDbConn × Result R.Error (Unit {0})

  abbrev written : Db → RedisDbConn → Done → Outcome
  written db r (c, result) = (record { conns = insert (index db) c r.conns }, result)

  abbrev on_db : DbOp → RedisDbConn → Result R.Error R.Conn → Outcome
  on_db o r (err e) = (r, err e)
  on_db o r (ok c) = written o.db r (run_op o.op c)

  unfoldable pub apply_one : DbOp → RedisDbConn → Outcome
  apply_one o r = on_db o r (conn o.db r)

  -- The loop over the operations, which ends at the first error.
  unfoldable pub apply_ops : List DbOp → RedisDbConn → Outcome
  apply_ops [] r = (r, ok tt)
  apply_ops (o ∷ ops) r =
      let one = apply_one o r in elim one.1 [ ok _ ↦ apply_ops ops one.0 | err e ↦ (one.0, err e) ]

  unfoldable pub confirm_key : Db → Text → RedisDbConn → Result R.Error Bool
  confirm_key db key r = conn db r >>= λ c. R.exists key c

  abbrev pub redis_db : DbConn
  redis_db = record {
    Conn = RedisDbConn;
    Error = R.Error;
    apply = apply_ops;
    confirm = confirm_key;
  }
