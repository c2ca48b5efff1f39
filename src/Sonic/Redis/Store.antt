-- ===== src/Sonic/Redis/Store.antt =====
-- crates/enforce-sonic/src/redis_conn.rs: the documented effect of the commands, and the list of items
-- that a field holds.
use usg_authenticator.Prelude.{
  ◌≡◌, ◌≢◌, refl, List, [], ◌∷◌, Text, Bool, true, false, ◌&&◌, ◌||◌, if◌then◌else◌, Option, none,
  some, text_eq, text_eq_iff, All, ok, arith, Bool-cases, inl, inr,
}
use usg_authenticator.Sonic.Schema.{ports_field}
use usg_authenticator.Sonic.Schema.View.{View, sets_ports}
use usg_authenticator.Sonic.Database.{no_comma, is_plain, plain_fields}
use usg_authenticator.Sonic.Redis.Items.{
  IsPlain, items, join, contains, without, items-join, items-IsPlain, items-plain, contains-append,
  contains-without, without-IsPlain, append-IsPlain,
}
use usg_authenticator.Sonic.Redis.{items_of, pushed, Redis}

abbrev pub put_fields : List (Text × Text) → Text → Option Text → Option Text
put_fields [] f before = before
put_fields ((g, x) ∷ fs) f before = put_fields fs f (if text_eq g f then some x else before)

-- The documented effect of the commands, where they succeed: keys hold fields, a key is there while
-- it has a field, and a command changes no other key.
pub record IsHashStore (R : Redis) : Type 0 where
  pub present : R.Conn → Text → Bool
  pub field : R.Conn → Text → Text → Option Text
  pub field_present :
      (c : R.Conn) (k f : Text) {x : Text} → field c k f ≡ some x → present c k ≡ true
  pub hset_multiple_lem :
      (k : Text) (fs : List (Text × Text)) (c : R.Conn)
      → (R.hset_multiple k fs c).1 ≡ ok tt
      → let d = (R.hset_multiple k fs c).0 in
        ((j : Text) → present d j ≡ (text_eq j k || present c j))
        × ((j f : Text)
            → field d j f ≡ (if text_eq j k then put_fields fs f (field c j f) else field c j f))
  pub hset_lem :
      (k g x : Text) (c : R.Conn)
      → (R.hset k g x c).1 ≡ ok tt
      → let d = (R.hset k g x c).0 in
        ((j : Text) → present d j ≡ (text_eq j k || present c j))
        × ((j f : Text)
            → field d j f ≡ (if text_eq j k && text_eq g f then some x else field c j f))
  pub del_lem :
      (k : Text) (c : R.Conn)
      → (R.del k c).1 ≡ ok tt
      → let d = (R.del k c).0 in
        ((j : Text) → present d j ≡ (if text_eq j k then false else present c j))
        × ((j f : Text) → field d j f ≡ (if text_eq j k then none else field c j f))
  pub hget_lem : (k f : Text) (c : R.Conn) {r : Option Text} → R.hget k f c ≡ ok r → field c k f ≡ r
  pub exists_lem : (k : Text) (c : R.Conn) {b : Bool} → R.exists k c ≡ ok b → present c k ≡ b

abbrev pub listed : Text → Option Text → Bool
listed v none = false
listed v (some s) = contains v (items s)

pub View-ext :
    (v w : View)
    → ((j : Text) → v.present j ≡ w.present j)
    → ((j u : Text) → v.bound j u ≡ w.bound j u)
    → v ≡ w
View-ext v w p b = λ i. record { present = λ j. p j i; bound = λ j u. b j u i }

is_plain-IsPlain : (x : Text) → is_plain x ≡ true → IsPlain x
is_plain-IsPlain [] h = cc
is_plain-IsPlain (c ∷ cs) h = all (c ∷ cs) h
  where
    all : (s : Text) → no_comma s ≡ true → All (λ d. d ≢ b',') s
    all [] h = tt
    all (d ∷ s) h = ground (arith, all s)

listed-plain : (v x : Text) → is_plain x ≡ true → listed v (some x) ≡ text_eq x v
unfolding contains
listed-plain v x h = rw (items-plain x (is_plain-IsPlain x h)) (ground arith)

pub listed-put_fields :
    (v : Text) (fs : List (Text × Text)) (before : Option Text)
    → plain_fields fs ≡ true
    → listed v (put_fields fs ports_field before) ≡ sets_ports v fs (listed v before)
listed-put_fields v [] before h = refl
listed-put_fields v ((f, x) ∷ fs) before h = elim (Bool-cases (text_eq f ports_field)) [
  | inl e ↦
      rw (e, listed-put_fields v fs (some x) (ground arith), listed-plain v x (ground arith)) refl
  | inr e ↦ rw (e, listed-put_fields v fs before (ground arith)) refl
]

contains-pushed :
    (v x : Text) (ps : List Text) → contains v (pushed x ps) ≡ (contains v ps || text_eq x v)
contains-pushed v x ps = elim (Bool-cases (contains x ps)) [
  | inr new ↦ rw (new, contains-append v x ps) refl
  | inl old ↦ elim (Bool-cases (text_eq x v)) [
    | inr other ↦ ground arith
    | inl same ↦
        let there : contains v ps ≡ true = rw ((text_eq_iff x v).0 same) at old in ground arith
  ]
]

pushed-IsPlain :
    (x : Text) (ps : List Text) → IsPlain x → All IsPlain ps → All IsPlain (pushed x ps)
pushed-IsPlain x ps h k = elim (Bool-cases (contains x ps)) [
  | inl old ↦ rw old k
  | inr new ↦ rw new (append-IsPlain x ps h k)
]

items_of-IsPlain : (o : Option Text) → All IsPlain (items_of o)
items_of-IsPlain none = tt
items_of-IsPlain (some s) = items-IsPlain s

listed-old : (v : Text) (o : Option Text) → listed v o ≡ contains v (items_of o)
unfolding contains
listed-old v none = refl
listed-old v (some s) = refl

-- What a list holds once an item is added to it, or taken out of it.
pub listed-added :
    (v x : Text) (o : Option Text)
    → is_plain x ≡ true
    → listed v (some (join (pushed x (items_of o)))) ≡ (text_eq x v || listed v o)
listed-added v x o h =
    rw
      (
        items-join (pushed x (items_of o))
            (pushed-IsPlain x (items_of o) (is_plain-IsPlain x h) (items_of-IsPlain o)),
        contains-pushed v x (items_of o),
        listed-old v o,
      )
      (ground arith)

pub listed-removed :
    (v x s : Text)
    → listed v (some (join (without x (items s))))
      ≡ (if text_eq x v then false else listed v (some s))
listed-removed v x s =
    rw
      (
        items-join (without x (items s)) (without-IsPlain x (items s) (items-IsPlain s)),
        contains-without v x (items s),
      )
      (ground arith)
