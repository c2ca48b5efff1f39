-- ===== src/Authd/Worker/Scheduler.antt =====
-- crates/authd/src/worker.rs: `TokioScheduler`, one task for each armed timer and the map of their
-- abort handles. The runtime that runs the tasks is a parameter.
pub mod Armed
pub mod Handles
pub mod Tracked
use usg_authenticator.Prelude.{
  ℕ, ◌≡◌, ◌↔◌, refl, List, [], ◌∷◌, Bool, true, false, ◌&&◌, ◌==◌, if◌then◌else◌, Option, none,
  some, arith,
}
use usg_authenticator.Pacp.Ethernet.{MacAddr, mac_eq, mac_eq_iff}
use usg_authenticator.Pae.Config.{TimerKind}

-- A spawned task sleeps for its duration and then sends the timer event of its station.
pub record Runtime : Type 1 where
  pub World : Type 0
  pub AbortHandle : Type 0
  pub spawn : MacAddr → TimerKind → ℕ → World → World × AbortHandle
  pub abort : AbortHandle → World → World

abbrev kind_code : TimerKind → ℕ
kind_code TimerKind.tx_period = 0
kind_code TimerKind.held = 1
kind_code TimerKind.reauth = 2
kind_code TimerKind.server_timeout = 3
kind_code TimerKind.supp_timeout = 4
kind_code TimerKind.session_timeout = 5

-- `==` on the kinds.
unfoldable pub kind_eq : TimerKind → TimerKind → Bool
kind_eq a b = kind_code a == kind_code b

pub kind_eq_iff : (a b : TimerKind) → (kind_eq a b ≡ true) ↔ (a ≡ b)
unfolding kind_eq
kind_eq_iff a b = ground arith

pub record Key : Type 0 where
  pub mac : MacAddr
  pub kind : TimerKind

unfoldable pub key_eq : Key → Key → Bool
key_eq a b = mac_eq a.mac b.mac && kind_eq a.kind b.kind

pub key_eq_iff : (a b : Key) → (key_eq a b ≡ true) ↔ (a ≡ b)
unfolding key_eq
key_eq_iff a b = ground (arith, mac_eq_iff a.mac b.mac, kind_eq_iff a.kind b.kind)

module _ (R : Runtime) where
  abbrev pub Handles : Type 0
  Handles = List (Key × R.AbortHandle)

  unfoldable pub lookup : Key → Handles → Option R.AbortHandle
  lookup k [] = none
  lookup k ((j, h) ∷ m) = let rest = lookup k m in if key_eq j k then some h else rest

  -- `HashMap::insert` and `HashMap::remove`; the old value is what `lookup` finds.
  unfoldable pub insert : Key → R.AbortHandle → Handles → Handles
  insert k h [] = (k, h) ∷ []
  insert k h ((j, g) ∷ m) =
      let rest = insert k h m in if key_eq j k then (j, h) ∷ m else (j, g) ∷ rest

  unfoldable pub remove : Key → Handles → Handles
  remove k [] = []
  remove k ((j, g) ∷ m) = let rest = remove k m in if key_eq j k then rest else (j, g) ∷ rest

  pub record TokioScheduler : Type 0 where
    pub poisoned : Bool
    pub handles : Handles
    pub world : R.World

  abbrev abort_old : Option R.AbortHandle → R.World → R.World
  abort_old none w = w
  abort_old (some h) w = R.abort h w

  -- The task is spawned first; a lock that is poisoned leaves the map as it is.
  unfoldable pub arm : MacAddr → TimerKind → ℕ → TokioScheduler → TokioScheduler
  arm mac kind dur s =
      let k : Key = record { mac = mac; kind = kind } in
      let (w, h) = R.spawn mac kind dur s.world in
      if s.poisoned
      then record s { world = w }
      else record s { handles = insert k h s.handles; world = abort_old (lookup k s.handles) w }

  unfoldable pub cancel_key : Key → TokioScheduler → TokioScheduler
  cancel_key k s = record s {
    handles = remove k s.handles;
    world = abort_old (lookup k s.handles) s.world;
  }

  unfoldable pub cancel : MacAddr → TimerKind → TokioScheduler → TokioScheduler
  cancel mac kind s = if s.poisoned then s else cancel_key (record { mac = mac; kind = kind }) s

  unfoldable pub keys_of : MacAddr → Handles → List Key
  keys_of mac [] = []
  keys_of mac ((j, h) ∷ m) = let rest = keys_of mac m in if mac_eq j.mac mac then j ∷ rest else rest

  unfoldable pub cancel_keys : List Key → TokioScheduler → TokioScheduler
  cancel_keys [] s = s
  cancel_keys (k ∷ ks) s = cancel_keys ks (cancel_key k s)

  unfoldable pub cancel_all : MacAddr → TokioScheduler → TokioScheduler
  cancel_all mac s = if s.poisoned then s else cancel_keys (keys_of mac s.handles) s
