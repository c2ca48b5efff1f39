-- ===== src/Sonic/Database.antt =====
-- The contract of `DbConn` in crates/enforce-sonic/src/db.rs: what its clients rely on, and what a
-- connection to a database has to provide.
use usg_authenticator.Prelude.{
  ◌≡◌, List, [], ◌∷◌, Text, Bool, true, false, not, ◌&&◌, ◌||◌, ◌==◌, text_eq, All, ok,
}
use usg_authenticator.Sonic.Db.{config, Op, hset, del, list_add, list_remove, DbOp, DbConn}
use usg_authenticator.Sonic.Schema.{ports_field}
use usg_authenticator.Sonic.Schema.View.{View, perform}

-- A text that may stand in a list: it is not empty and holds no comma.
abbrev pub no_comma : Text → Bool
no_comma [] = true
no_comma (c ∷ cs) = not (c == b',') && no_comma cs

abbrev pub is_plain : Text → Bool
is_plain [] = false
is_plain (c ∷ cs) = no_comma (c ∷ cs)

abbrev pub plain_fields : List (Text × Text) → Bool
plain_fields [] = true
plain_fields ((f, x) ∷ fs) = (not (text_eq f ports_field) || is_plain x) && plain_fields fs

abbrev pub plain_op : Op → Bool
plain_op (hset k fs) = plain_fields fs
plain_op (del k) = true
plain_op (list_add k f x) = is_plain x
plain_op (list_remove k f x) = true

-- An operation on the configuration database that writes only plain items into lists.
abbrev pub IsPlainOp : DbOp → Type 0
IsPlainOp o = (o.db ≡ config) × (plain_op o.op ≡ true)

pub record IsDatabase (c : DbConn) : Type 0 where
  pub view : c.Conn → View
  pub apply_lem :
      (ops : List DbOp) (s : c.Conn)
      → All IsPlainOp ops
      → (c.apply ops s).1 ≡ ok tt
      → view (c.apply ops s).0 ≡ perform ops (view s)
  pub confirm_lem :
      (key : Text) (s : c.Conn) {b : Bool}
      → c.confirm config key s ≡ ok b
      → (view s).present key ≡ b
