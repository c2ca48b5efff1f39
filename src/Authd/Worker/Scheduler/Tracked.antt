-- ===== src/Authd/Worker/Scheduler/Tracked.antt =====
-- crates/authd/src/worker.rs: the tasks that are alive and the handles that the scheduler keeps.
use usg_authenticator.Prelude.{
  ℕ, ◌≡◌, ◌≢◌, ◌↔◌, List, [], ◌∷◌, Bool, true, false, some, arith, ◌⊎◌, inl, inr, Option-cases,
  Bool-cases, All,
}
use usg_authenticator.Pacp.Ethernet.{MacAddr, mac_eq, mac_eq_iff}
use usg_authenticator.Pae.Config.{TimerKind}
use usg_authenticator.Authd.Worker.Scheduler.Handles.{lookup-insert, lookup-remove}
use usg_authenticator.Authd.Worker.Scheduler.{
  Runtime, Key, key_eq_iff, TokioScheduler, Handles, lookup, arm, cancel_key, cancel, keys_of,
  cancel_keys, cancel_all,
}

-- What tokio documents of its tasks: a handle stands for one task, which is for one timer; spawning
-- starts that task and no other; an aborted task is gone, and aborting starts none.
pub record Tasks (R : Runtime) : Type 0 where
  pub live : R.World → R.AbortHandle → Bool
  pub key : R.AbortHandle → Key
  pub spawn_key :
      (m : MacAddr) (k : TimerKind) (dur : ℕ) (w : R.World)
      → key (R.spawn m k dur w).1 ≡ record { mac = m; kind = k }
  pub spawn_new :
      (m : MacAddr) (k : TimerKind) (dur : ℕ) (w : R.World)
      → live (R.spawn m k dur w).0 (R.spawn m k dur w).1 ≡ true
  pub spawn_live :
      (m : MacAddr) (k : TimerKind) (dur : ℕ) (w : R.World) (h : R.AbortHandle)
      → live (R.spawn m k dur w).0 h ≡ true
      → (h ≡ (R.spawn m k dur w).1) ⊎ (live w h ≡ true)
  pub abort_live :
      (g h : R.AbortHandle) (w : R.World)
      → (live (R.abort g w) h ≡ true) ↔ ((live w h ≡ true) × (h ≢ g))

module _ (R : Runtime) (T : Tasks R) where
  -- Every task that is alive is the one whose handle is kept for its timer, and a handle that is
  -- kept for a timer is of a task for that timer.
  pub record Tracked (s : TokioScheduler R) : Type 0 where
    pub kept : (h : R.AbortHandle) → T.live s.world h ≡ true → lookup R (T.key h) s.handles ≡ some h
    pub keyed : (k : Key) (h : R.AbortHandle) → lookup R k s.handles ≡ some h → T.key h ≡ k

  -- So at most one task is alive for one timer of one station.
  pub one_task :
      (s : TokioScheduler R) (g h : R.AbortHandle)
      → Tracked s
      → T.live s.world g ≡ true
      → T.live s.world h ≡ true
      → T.key g ≡ T.key h
      → g ≡ h
  one_task s g h t a b same = ground (arith, t.kept g a, t.kept h b)

  -- Arming a timer, while the lock is not poisoned, keeps that every task that is alive is the one
  -- whose handle is kept for its timer, and that a handle that is kept is of a task for that
  -- timer.
  pub arm-Tracked :
      (m : MacAddr) (k : TimerKind) (dur : ℕ) (s : TokioScheduler R)
      → s.poisoned ≡ false
      → Tracked s
      → Tracked (arm R m k dur s)
  unfolding arm
  arm-Tracked m k dur s usable t =
      let q : Key = record { mac = m; kind = k } in
      let w = (R.spawn m k dur s.world).0 in
      let new = (R.spawn m k dur s.world).1 in
      record {
        kept = λ h alive. elim (Option-cases (lookup R q s.handles)) [
          | inl nothing ↦ ground (
            arith,
            lookup-insert R (T.key h) q new s.handles,
            key_eq_iff q (T.key h),
            T.spawn_key m k dur s.world,
            T.spawn_live m k dur s.world h,
            t.kept h,
          )
          | inr (old, was) ↦ ground (
            arith,
            lookup-insert R (T.key h) q new s.handles,
            key_eq_iff q (T.key h),
            T.spawn_key m k dur s.world,
            T.spawn_live m k dur s.world h,
            T.abort_live old h w,
            t.kept h,
          )
        ];
        keyed = λ j h has. ground (
          arith,
          lookup-insert R j q new s.handles,
          key_eq_iff q j,
          T.spawn_key m k dur s.world,
          t.keyed j h,
        );
      }

  cancel_key-Tracked : (k : Key) (s : TokioScheduler R) → Tracked s → Tracked (cancel_key R k s)
  unfolding cancel_key
  cancel_key-Tracked k s t = record {
    kept = λ h alive. elim (Option-cases (lookup R k s.handles)) [
      | inl nothing ↦
          ground (arith, lookup-remove R (T.key h) k s.handles, key_eq_iff k (T.key h), t.kept h)
      | inr (old, was) ↦ ground (
        arith,
        lookup-remove R (T.key h) k s.handles,
        key_eq_iff k (T.key h),
        T.abort_live old h s.world,
        t.kept h,
      )
    ];
    keyed = λ j h has. ground (arith, lookup-remove R j k s.handles, key_eq_iff k j, t.keyed j h);
  }

  cancel_key-live :
      (k : Key) (s : TokioScheduler R) (h : R.AbortHandle)
      → Tracked s
      → (T.live (cancel_key R k s).world h ≡ true) ↔ ((T.live s.world h ≡ true) × (T.key h ≢ k))
  unfolding cancel_key
  cancel_key-live k s h t = elim (Option-cases (lookup R k s.handles)) [
    | inl nothing ↦
        (λ alive. (ground arith, λ same. ground (arith, t.kept h)), λ both. ground arith)
    | inr (old, was) ↦ (
      λ alive.
          let was_alive = (T.abort_live old h s.world).0 (ground arith) in
          (was_alive.0, λ same. ground (arith, t.kept h)),
      λ both. ground (arith, (T.abort_live old h s.world).1, t.keyed k old was),
    )
  ]

  cancel_usable :
      (m : MacAddr) (k : TimerKind) (s : TokioScheduler R)
      → s.poisoned ≡ false
      → cancel R m k s ≡ cancel_key R (record { mac = m; kind = k }) s
  unfolding cancel
  cancel_usable m k s usable = ground arith

  -- Cancelling a timer keeps that, and ends the task of that timer and no other.
  pub cancel-live :
      (m : MacAddr) (k : TimerKind) (s : TokioScheduler R) (h : R.AbortHandle)
      → s.poisoned ≡ false
      → Tracked s
      → Tracked (cancel R m k s)
        × ((T.live (cancel R m k s).world h ≡ true)
            ↔ ((T.live s.world h ≡ true) × (T.key h ≢ record { mac = m; kind = k })))
  cancel-live m k s h usable t = rw (cancel_usable m k s usable) (
    cancel_key-Tracked (record { mac = m; kind = k }) s t,
    cancel_key-live (record { mac = m; kind = k }) s h t,
  )

  -- The keys that are left alive are those that are not in the list.
  cancel_keys-live :
      (ks : List Key) (s : TokioScheduler R) (h : R.AbortHandle)
      → Tracked s
      → Tracked (cancel_keys R ks s)
        × ((T.live (cancel_keys R ks s).world h ≡ true)
            ↔ ((T.live s.world h ≡ true) × All (λ k. T.key h ≢ k) ks))
  unfolding cancel_keys
  cancel_keys-live [] s h t = (t, (λ alive. (alive, tt), λ both. both.0))
  cancel_keys-live (k ∷ ks) s h t =
      let first = cancel_key-live k s h t in
      let (kept, rest) = cancel_keys-live ks (cancel_key R k s) h (cancel_key-Tracked k s t) in
      (
        kept,
        (
          λ alive.
              let later = rest.0 alive in let now = first.0 later.0 in (now.0, (now.1, later.1)),
          λ both. rest.1 (first.1 (both.0, both.1.0), both.1.1),
        ),
      )

  keys_of-mine :
      (m : MacAddr) (hs : Handles R) (j : Key) → j.mac ≢ m → All (λ k. j ≢ k) (keys_of R m hs)
  unfolding keys_of
  keys_of-mine m [] j other = tt
  keys_of-mine m ((i, g) ∷ hs) j other = elim (Bool-cases (mac_eq i.mac m)) [
    | inl mine ↦ rw mine ((λ same. ground (arith, mac_eq_iff i.mac m)), keys_of-mine m hs j other)
    | inr foreign ↦ rw foreign (keys_of-mine m hs j other)
  ]

  keys_of-All :
      (m : MacAddr) (hs : Handles R) (j : Key) (h : R.AbortHandle)
      → lookup R j hs ≡ some h
      → All (λ k. j ≢ k) (keys_of R m hs)
      → j.mac ≢ m
  unfolding keys_of lookup
  keys_of-All m [] j h has none_is same = ground arith
  keys_of-All m ((i, g) ∷ hs) j h has none_is same =
      ground (arith, mac_eq_iff i.mac m, key_eq_iff i j, keys_of-All m hs j h)

  cancel_all_usable :
      (m : MacAddr) (s : TokioScheduler R)
      → s.poisoned ≡ false
      → cancel_all R m s ≡ cancel_keys R (keys_of R m s.handles) s
  unfolding cancel_all
  cancel_all_usable m s usable = ground arith

  -- Cancelling all timers of a station, while the lock is not poisoned, ends the tasks of that
  -- station and no others, and keeps that every task that is alive is the one whose handle is kept
  -- for its timer.
  pub cancel_all-live :
      (m : MacAddr) (s : TokioScheduler R) (h : R.AbortHandle)
      → s.poisoned ≡ false
      → Tracked s
      → Tracked (cancel_all R m s)
        × ((T.live (cancel_all R m s).world h ≡ true)
            ↔ ((T.live s.world h ≡ true) × ((T.key h).mac ≢ m)))
  cancel_all-live m s h usable t =
      let (kept, alive) = cancel_keys-live (keys_of R m s.handles) s h t in
      rw (cancel_all_usable m s usable) (
        kept,
        (
          λ now.
              let before = alive.0 now in
              (before.0, keys_of-All m s.handles (T.key h) h (t.kept h before.0) before.1),
          λ both. alive.1 (both.0, keys_of-mine m s.handles (T.key h) both.1),
        ),
      )
