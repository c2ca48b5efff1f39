-- ===== src/Authd/Worker/Scheduler/Handles.antt =====
-- crates/authd/src/worker.rs: which handles are kept after the map is written.
use usg_authenticator.Prelude.{
  ℕ, ◌≡◌, refl, List, [], ◌∷◌, Bool, true, false, ◌||◌, if◌then◌else◌, none, some, arith,
}
use usg_authenticator.Pacp.Ethernet.{MacAddr, mac_eq, mac_eq_iff}
use usg_authenticator.Pae.Config.{TimerKind}
use usg_authenticator.Authd.Worker.Scheduler.{
  Runtime, Key, key_eq, key_eq_iff, TokioScheduler, Handles, lookup, insert, remove, arm,
  cancel_key, cancel, keys_of, cancel_keys, cancel_all,
}

module _ (R : Runtime) where
  pub lookup-insert :
      (j k : Key) (h : R.AbortHandle) (m : Handles R)
      → lookup R j (insert R k h m) ≡ (if key_eq k j then some h else lookup R j m)
  unfolding lookup insert
  lookup-insert j k h [] = refl
  lookup-insert j k h ((i, g) ∷ m) =
      ground (arith, key_eq_iff i k, key_eq_iff i j, key_eq_iff k j, lookup-insert j k h m)

  pub lookup-remove :
      (j k : Key) (m : Handles R)
      → lookup R j (remove R k m) ≡ (if key_eq k j then none else lookup R j m)
  unfolding lookup remove
  lookup-remove j k [] = ground arith
  lookup-remove j k ((i, g) ∷ m) =
      ground (arith, key_eq_iff i k, key_eq_iff i j, key_eq_iff k j, lookup-remove j k m)

  abbrev listed : Key → List Key → Bool
  listed j [] = false
  listed j (k ∷ ks) = key_eq k j || listed j ks

  lookup-cancel_keys :
      (j : Key) (ks : List Key) (s : TokioScheduler R)
      → lookup R j (cancel_keys R ks s).handles
        ≡ (if listed j ks then none else lookup R j s.handles)
  unfolding cancel_keys cancel_key
  lookup-cancel_keys j [] s = refl
  lookup-cancel_keys j (k ∷ ks) s =
      ground (arith, lookup-cancel_keys j ks (cancel_key R k s), lookup-remove j k s.handles)

  listed_mine :
      (j : Key) (m : MacAddr) (hs : Handles R)
      → listed j (keys_of R m hs) ≡ true
      → mac_eq m j.mac ≡ true
  unfolding keys_of
  listed_mine j m [] h = ground arith
  listed_mine j m ((i, g) ∷ hs) h =
      ground (arith, key_eq_iff i j, mac_eq_iff i.mac m, mac_eq_iff m j.mac, listed_mine j m hs)

  listed-keys_of :
      (j : Key) (m : MacAddr) (hs : Handles R)
      → (if listed j (keys_of R m hs) then none else lookup R j hs)
        ≡ (if mac_eq m j.mac then none else lookup R j hs)
  unfolding keys_of lookup
  listed-keys_of j m [] = ground arith
  listed-keys_of j m ((i, g) ∷ hs) = ground (
    arith,
    key_eq_iff i j,
    mac_eq_iff i.mac m,
    mac_eq_iff m j.mac,
    listed-keys_of j m hs,
    listed_mine j m hs,
  )

  module _ (j : Key) (s : TokioScheduler R) (usable : s.poisoned ≡ false) where
    pub lookup-arm :
        (m : MacAddr) (k : TimerKind) (dur : ℕ)
        → lookup R j (arm R m k dur s).handles ≡ (
            if key_eq (record { mac = m; kind = k }) j
            then some (R.spawn m k dur s.world).1
            else lookup R j s.handles)
    unfolding arm
    lookup-arm m k dur = ground (
      arith,
      lookup-insert j (record { mac = m; kind = k }) (R.spawn m k dur s.world).1 s.handles,
    )

    pub lookup-cancel :
        (m : MacAddr) (k : TimerKind)
        → lookup R j (cancel R m k s).handles
          ≡ (if key_eq (record { mac = m; kind = k }) j then none else lookup R j s.handles)
    unfolding cancel cancel_key
    lookup-cancel m k = ground (arith, lookup-remove j (record { mac = m; kind = k }) s.handles)

    pub lookup-cancel_all :
        (m : MacAddr)
        → lookup R j (cancel_all R m s).handles
          ≡ (if mac_eq m j.mac then none else lookup R j s.handles)
    unfolding cancel_all
    lookup-cancel_all m =
        ground (arith, lookup-cancel_keys j (keys_of R m s.handles) s, listed-keys_of j m s.handles)
