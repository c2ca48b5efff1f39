-- ===== src/Authd/Worker/Scheduler/Armed.antt =====
-- crates/authd/src/worker.rs: the timers of a station that TokioScheduler keeps handles for, when its
-- lock is not poisoned.
use usg_authenticator.Prelude.{ℕ, ◌≡◌, refl, ap, ◌∙◌, Bool, true, false, if◌then◌else◌, arith}
use usg_authenticator.Pacp.Ethernet.{MacAddr, mac_eq}
use usg_authenticator.Pae.Config.{TimerKind}
use usg_authenticator.Pae.Session.{is_some}
use usg_authenticator.Pae.World.{Timers, no_timers, put}
use usg_authenticator.Authd.Worker.Scheduler.{
  Runtime, key_eq, kind_eq, TokioScheduler, lookup, arm, cancel, cancel_all,
}
use usg_authenticator.Authd.Worker.Scheduler.Handles.{lookup-arm, lookup-cancel, lookup-cancel_all}

module _ (R : Runtime) where
  -- The lock is not poisoned whenever it is taken.
  abbrev pub usable : TokioScheduler R → TokioScheduler R
  usable s = record s { poisoned = false }

  -- A timer runs while the scheduler keeps a handle for it.
  abbrev has_handle : TokioScheduler R → MacAddr → TimerKind → Bool
  has_handle s n k = is_some (lookup R (record { mac = n; kind = k }) s.handles)

  abbrev timers_of : (TimerKind → Bool) → Timers
  timers_of on = record {
    tx_period = on TimerKind.tx_period;
    held = on TimerKind.held;
    reauth = on TimerKind.reauth;
    server_timeout = on TimerKind.server_timeout;
    supp_timeout = on TimerKind.supp_timeout;
    session_timeout = on TimerKind.session_timeout;
  }

  abbrev pub running : TokioScheduler R → MacAddr → Timers
  running s n = timers_of (has_handle s n)

  put-timers_of :
      (k : TimerKind) (b : Bool) (on : TimerKind → Bool)
      → put k b (timers_of on) ≡ timers_of (λ j. if kind_eq k j then b else on j)
  unfolding kind_eq
  put-timers_of k b on =
      elim k as (λ k. put k b (timers_of on) ≡ timers_of (λ j. if kind_eq k j then b else on j)) [
        | TimerKind.tx_period ↦ refl
        | TimerKind.held ↦ refl
        | TimerKind.reauth ↦ refl
        | TimerKind.server_timeout ↦ refl
        | TimerKind.supp_timeout ↦ refl
        | TimerKind.session_timeout ↦ refl
      ]

  abbrev handle_after : Bool → MacAddr → TimerKind → TokioScheduler R → MacAddr → TimerKind → Bool
  handle_after b mac k s n j =
      if mac_eq mac n then (if kind_eq k j then b else has_handle s n j) else has_handle s n j

  has_handle-arm :
      (mac : MacAddr) (k : TimerKind) (d : ℕ) (s : TokioScheduler R) (n : MacAddr) (j : TimerKind)
      → has_handle (arm R mac k d (usable s)) n j ≡ handle_after true mac k s n j
  unfolding key_eq
  has_handle-arm mac k d s n j =
      ground (arith, lookup-arm R (record { mac = n; kind = j }) (usable s) refl mac k d)

  has_handle-cancel :
      (mac : MacAddr) (k : TimerKind) (s : TokioScheduler R) (n : MacAddr) (j : TimerKind)
      → has_handle (cancel R mac k (usable s)) n j ≡ handle_after false mac k s n j
  unfolding key_eq
  has_handle-cancel mac k s n j =
      ground (arith, lookup-cancel R (record { mac = n; kind = j }) (usable s) refl mac k)

  has_handle-cancel_all :
      (mac : MacAddr) (s : TokioScheduler R) (n : MacAddr) (j : TimerKind)
      → has_handle (cancel_all R mac (usable s)) n j
        ≡ (if mac_eq mac n then false else has_handle s n j)
  has_handle-cancel_all mac s n j =
      ground (arith, lookup-cancel_all R (record { mac = n; kind = j }) (usable s) refl mac)

  timers_of-after :
      (b : Bool) (mac : MacAddr) (k : TimerKind) (s : TokioScheduler R) (n : MacAddr)
      → timers_of (handle_after b mac k s n)
        ≡ (if mac_eq mac n then put k b (running s n) else running s n)
  timers_of-after b mac k s n = grind (arith, put-timers_of k b (has_handle s n))

  pub running-arm :
      (mac : MacAddr) (k : TimerKind) (d : ℕ) (s : TokioScheduler R) (n : MacAddr)
      → running (arm R mac k d (usable s)) n
        ≡ (if mac_eq mac n then put k true (running s n) else running s n)
  running-arm mac k d s n =
      ap timers_of (λ i j. has_handle-arm mac k d s n j i) ∙ timers_of-after true mac k s n

  pub running-cancel :
      (mac : MacAddr) (k : TimerKind) (s : TokioScheduler R) (n : MacAddr)
      → running (cancel R mac k (usable s)) n
        ≡ (if mac_eq mac n then put k false (running s n) else running s n)
  running-cancel mac k s n =
      ap timers_of (λ i j. has_handle-cancel mac k s n j i) ∙ timers_of-after false mac k s n

  pub running-cancel_all :
      (mac : MacAddr) (s : TokioScheduler R) (n : MacAddr)
      → running (cancel_all R mac (usable s)) n ≡ (if mac_eq mac n then no_timers else running s n)
  running-cancel_all mac s n = ap timers_of (λ i j. has_handle-cancel_all mac s n j i) ∙ grind arith
