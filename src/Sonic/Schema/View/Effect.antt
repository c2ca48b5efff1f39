-- ===== src/Sonic/Schema/View/Effect.antt =====
-- crates/enforce-sonic/src/db.rs: the documented meaning of the operations on a database: which keys
-- are present, and which ports a key's `ports` list binds.
use usg_authenticator.Prelude.{
  ◌≡◌, refl, List, [], ◌∷◌, ◌++◌, Text, Bool, false, if◌then◌else◌, text_eq, ◌&&◌, ◌||◌,
}
use usg_authenticator.Sonic.Db.{Op, hset, del, list_add, list_remove, DbOp}
use usg_authenticator.Sonic.Schema.{ports_field}

pub record View : Type 0 where
  pub present : Text → Bool
  pub bound : Text → Text → Bool

-- Of several values for one field the last holds.
abbrev pub sets_ports : Text → List (Text × Text) → Bool → Bool
sets_ports v [] before = before
sets_ports v ((f, x) ∷ fs) before =
    sets_ports v fs (if text_eq f ports_field then text_eq x v else before)

abbrev pub effect : Op → View → View
effect (hset k fs) w = record {
  present = λ j. text_eq j k || w.present j;
  bound = λ j v. if text_eq j k then sets_ports v fs (w.bound j v) else w.bound j v;
}
effect (del k) w = record {
  present = λ j. if text_eq j k then false else w.present j;
  bound = λ j v. if text_eq j k then false else w.bound j v;
}
effect (list_add k f x) w = record {
  present = λ j. text_eq j k || w.present j;
  bound = λ j v. (text_eq j k && (text_eq f ports_field && text_eq x v)) || w.bound j v;
}
effect (list_remove k f x) w = record {
  present = w.present;
  bound =
      λ j v. if text_eq j k && (text_eq f ports_field && text_eq x v) then false else w.bound j v;
}

abbrev pub perform : List DbOp → View → View
perform [] w = w
perform (o ∷ ops) w = perform ops (effect o.op w)

pub perform-append :
    (xs ys : List DbOp) (w : View) → perform (xs ++ ys) w ≡ perform ys (perform xs w)
perform-append [] ys w = refl
perform-append (x ∷ xs) ys w = perform-append xs ys (effect x.op w)
