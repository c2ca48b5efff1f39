-- ===== src/Sonic/Redis/Refines.antt =====
-- crates/enforce-sonic/src/redis_conn.rs: over a Redis that keeps hashes, the backend is a database as
-- its clients rely on it.
use usg_authenticator.Prelude.{
  ℕ, ◌≡◌, refl, ap, ◌∙◌, List, [], ◌∷◌, Text, Bool, true, false, ◌&&◌, Option, none, some, text_eq,
  text_eq_iff, All, ok, err, arith, Bool-cases, Option-cases, Result-cases, inl, inr,
}
use usg_authenticator.Sonic.Db.{config, index, Op, hset, del, list_add, list_remove, DbOp}
use usg_authenticator.Sonic.Schema.{ports_field}
use usg_authenticator.Sonic.Schema.View.{View, effect, perform}
use usg_authenticator.Sonic.Database.{is_plain, plain_op, plain_fields, IsPlainOp, IsDatabase}
use usg_authenticator.Sonic.Redis.Items.{items, join, without}
use usg_authenticator.Sonic.Redis.{
  insert, items_of, pushed, Redis, RedisDbConn, get, run_op, apply_one, apply_ops, conn,
  confirm_key, redis_db,
}
use usg_authenticator.Sonic.Redis.Store.{
  IsHashStore, listed, View-ext, listed-put_fields, listed-added, listed-removed,
}

module _ (R : Redis) (L : IsHashStore R) where
  abbrev pub view_of : R.Conn → View
  view_of c = record { present = L.present c; bound = λ k v. listed v (L.field c k ports_field) }

  hset-effect :
      (k : Text) (fs : List (Text × Text)) (c : R.Conn)
      → plain_fields fs ≡ true
      → (R.hset_multiple k fs c).1 ≡ ok tt
      → view_of (R.hset_multiple k fs c).0 ≡ effect (hset k fs) (view_of c)
  hset-effect k fs c h done =
      let (p, f) = L.hset_multiple_lem k fs c done in
      View-ext _ _ p (λ j v. elim (Bool-cases (text_eq j k)) [
        | inl e ↦ rw (f j ports_field, e) (listed-put_fields v fs (L.field c j ports_field) h)
        | inr e ↦ rw (f j ports_field, e) refl
      ])

  del-effect :
      (k : Text) (c : R.Conn)
      → (R.del k c).1 ≡ ok tt
      → view_of (R.del k c).0 ≡ effect (del k) (view_of c)
  del-effect k c done =
      let (p, f) = L.del_lem k c done in
      View-ext _ _ p (λ j v. elim (Bool-cases (text_eq j k)) [
        | inl e ↦ rw (f j ports_field, e) refl
        | inr e ↦ rw (f j ports_field, e) refl
      ])

  list_add-effect :
      (k g x : Text) (c : R.Conn)
      → is_plain x ≡ true
      → (run_op R (list_add k g x) c).1 ≡ ok tt
      → view_of (run_op R (list_add k g x) c).0 ≡ effect (list_add k g x) (view_of c)
  unfolding run_op
  list_add-effect k g x c h done = elim (Result-cases (R.hget k g c)) [
    | inr (e, failed) ↦ absurd (ground arith)
    | inl (r, got) ↦
        let value = join (pushed x (items_of r)) in
        let (p, f) = L.hset_lem k g value c (rw got at done) in
        rw got (
          View-ext _ _ p (λ j v. elim (Bool-cases (text_eq j k)) [
            | inr e ↦ rw (f j ports_field, e) refl
            | inl e ↦ elim (Bool-cases (text_eq g ports_field)) [
              | inr n ↦ rw (f j ports_field, e, n) refl
              | inl m ↦
                  let before : L.field c j ports_field ≡ r =
                    rw ((text_eq_iff j k).0 e, ← (text_eq_iff g ports_field).0 m)
                      (L.hget_lem k g c got) in
                  rw (f j ports_field, e, m, listed-added v x r h, before) refl
            ]
          ]))
  ]

  list_remove-effect :
      (k g x : Text) (c : R.Conn)
      → (run_op R (list_remove k g x) c).1 ≡ ok tt
      → view_of (run_op R (list_remove k g x) c).0 ≡ effect (list_remove k g x) (view_of c)
  unfolding run_op
  list_remove-effect k g x c done = elim (Result-cases (R.hget k g c)) [
    | inr (e, failed) ↦ absurd (ground arith)
    | inl (none, got) ↦ rw got (
        View-ext _ _ (λ j. refl)
          (λ j v. elim (Bool-cases (text_eq j k && (text_eq g ports_field && text_eq x v))) [
            | inr e ↦ rw e refl
            | inl e ↦
                let gone : L.field c j ports_field ≡ none =
                  ground
                    (arith, text_eq_iff j k, text_eq_iff g ports_field, L.hget_lem k g c got) in
                rw (e, gone) refl
          ]))
    | inl (some s, got) ↦
        let value = join (without x (items s)) in
        let (p, f) = L.hset_lem k g value c (rw got at done) in
        let there : L.present c k ≡ true = L.field_present c k g (L.hget_lem k g c got) in
        rw got (
          View-ext _ _
            (λ j. elim (Bool-cases (text_eq j k)) [
              | inr e ↦ rw (p j, e) refl
              | inl e ↦ rw (p j, e, (text_eq_iff j k).0 e, there) refl
            ])
            (λ j v. elim (Bool-cases (text_eq j k)) [
              | inr e ↦ rw (f j ports_field, e) refl
              | inl e ↦ elim (Bool-cases (text_eq g ports_field)) [
                | inr n ↦ rw (f j ports_field, e, n) refl
                | inl m ↦
                    let before : L.field c j ports_field ≡ some s =
                      rw ((text_eq_iff j k).0 e, ← (text_eq_iff g ports_field).0 m)
                        (L.hget_lem k g c got) in
                    rw (f j ports_field, e, m, listed-removed v x s, before) refl
              ]
            ]))
  ]

  run_op-effect :
      (o : Op) (c : R.Conn)
      → plain_op o ≡ true
      → (run_op R o c).1 ≡ ok tt
      → view_of (run_op R o c).0 ≡ effect o (view_of c)
  unfolding run_op
  run_op-effect (hset k fs) c h done = hset-effect k fs c h done
  run_op-effect (del k) c h done = del-effect k c done
  run_op-effect (list_add k g x) c h done = list_add-effect k g x c h done
  run_op-effect (list_remove k g x) c h done = list_remove-effect k g x c done

  abbrev pub empty_view : View
  empty_view = record { present = λ j. false; bound = λ j v. false }

  abbrev pub view_at : Option R.Conn → View
  view_at none = empty_view
  view_at (some c) = view_of c

  abbrev pub redis_view : RedisDbConn R → View
  redis_view r = view_at (get R (index config) r.conns)

  get-insert : (i : ℕ) (c : R.Conn) (cs : List (ℕ × R.Conn)) → get R i (insert R i c cs) ≡ some c
  get-insert i c [] = ground arith
  get-insert i c ((j, d) ∷ cs) = ground (arith, get-insert i c cs)

  apply_one-effect :
      (o : DbOp) (r : RedisDbConn R)
      → IsPlainOp o
      → (apply_one R o r).1 ≡ ok tt
      → redis_view (apply_one R o r).0 ≡ effect o.op (redis_view r)
  unfolding apply_one conn
  apply_one-effect o r h done = elim (Option-cases (get R (index config) r.conns)) [
    | inl e ↦ absurd (ground arith)
    | inr (c, e) ↦
        let went : (run_op R o.op c).1 ≡ ok tt = rw (h.0, e) at done in
        rw (h.0, e, get-insert (index config) (run_op R o.op c).0 r.conns)
          (run_op-effect o.op c h.1 went)
  ]

  apply_ops_ok :
      (o : DbOp) (ops : List DbOp) (r : RedisDbConn R)
      → (apply_one R o r).1 ≡ ok tt
      → apply_ops R (o ∷ ops) r ≡ apply_ops R ops (apply_one R o r).0
  unfolding apply_ops
  apply_ops_ok o ops r h = rw (h, apply_ops) refl

  apply_ops_err :
      (o : DbOp) (ops : List DbOp) (r : RedisDbConn R) {x : R.Error}
      → (apply_one R o r).1 ≡ err x
      → apply_ops R (o ∷ ops) r ≡ ((apply_one R o r).0, err x)
  unfolding apply_ops
  apply_ops_err o ops r h = rw (h, apply_ops) refl

  -- On a store of hashes whose commands have their documented effect: where the backend applies a
  -- list of operations on the configuration database that write only plain items into lists, each
  -- with success, what it shows of keys and of the ports that they bind is what the operations
  -- make of what it showed before.
  pub apply_ops-perform :
      (ops : List DbOp) (r : RedisDbConn R)
      → All IsPlainOp ops
      → (apply_ops R ops r).1 ≡ ok tt
      → redis_view (apply_ops R ops r).0 ≡ perform ops (redis_view r)
  apply_ops-perform [] r h done = unfold apply_ops in refl
  apply_ops-perform (o ∷ ops) r h done = elim (Result-cases (apply_one R o r).1) [
    | inr (x, failed) ↦ absurd (cc (rw (apply_ops_err o ops r failed) at done))
    | inl (u, went) ↦ rw (apply_ops_ok o ops r went) (
        apply_ops-perform ops (apply_one R o r).0 h.1 (rw (apply_ops_ok o ops r went) at done)
        ∙ ap (perform ops) (apply_one-effect o r h.0 went))
  ]

  pub confirm_key-present :
      (key : Text) (r : RedisDbConn R) {b : Bool}
      → confirm_key R config key r ≡ ok b
      → (redis_view r).present key ≡ b
  unfolding confirm_key conn
  confirm_key-present key r h = elim (Option-cases (get R (index config) r.conns)) [
    | inl e ↦ absurd (ground arith)
    | inr (c, e) ↦ rw e (L.exists_lem key c (rw e at h))
  ]

  abbrev pub redis-IsDatabase : IsDatabase (redis_db R)
  redis-IsDatabase = record {
    view = redis_view;
    apply_lem = apply_ops-perform;
    confirm_lem = λ key s h. confirm_key-present key s h;
  }
