-- ===== src/Sonic/Db.antt =====
-- crates/enforce-sonic/src/db.rs: the operations on the SONiC databases and their connection.
use usg_authenticator.Prelude.{ℕ, List, Text, Bool, Result}

pub data Db : Type 0 where
  config appl asic state : Db

unfoldable pub index : Db → ℕ
index appl = 0
index asic = 1
index config = 4
index state = 6

pub data Op : Type 0 where
  hset : Text → List (Text × Text) → Op
  del : Text → Op
  list_add : Text → Text → Text → Op
  list_remove : Text → Text → Text → Op

pub record DbOp : Type 0 where
  pub db : Db
  pub op : Op

-- The `DbConn` trait. A failing `apply` may have written some of the operations.
pub record DbConn : Type 1 where
  pub Conn : Type 0
  pub Error : Type 0
  pub apply : List DbOp → Conn → Conn × Result Error (Unit {0})
  pub confirm : Db → Text → Conn → Result Error Bool
