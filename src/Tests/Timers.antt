-- ===== src/Tests/Timers.antt =====
-- crates/authd/src/worker.rs: timers on a runtime that remembers which tasks are alive.
use usg_authenticator.Prelude.{
  ℕ, suc, ◌==◌, ◌≡◌, ◌≢◌, ◌↔◌, refl, [], Bool, true, false, not, ◌&&◌, ◌||◌, some, arith,
}
use usg_authenticator.Pacp.Ethernet.{MacAddr}
use usg_authenticator.Pae.Config.{TimerKind}
use usg_authenticator.Authd.Worker.Scheduler.{
  Runtime, Key, key_eq, key_eq_iff, TokioScheduler, lookup, arm, cancel_all,
}
use usg_authenticator.Authd.Worker.Scheduler.Tracked.{Tasks, Tracked, arm-Tracked, cancel_all-live}
use usg_authenticator.Tests.Sessions.{station}

record Handle : Type 0 where
  pub id : ℕ
  pub of : Key

abbrev same : Handle → Handle → Bool
same g h = g.id == h.id && key_eq g.of h.of

same_iff : (g h : Handle) → (same g h ≡ true) ↔ (g ≡ h)
same_iff g h = ground (arith, key_eq_iff g.of h.of)

record Running : Type 0 where
  pub next : ℕ
  pub alive : Handle → Bool

abbrev spawned : MacAddr → TimerKind → Running → Handle
spawned m k w = record { id = w.next; of = record { mac = m; kind = k } }

abbrev runtime : Runtime
runtime = record {
  World = Running;
  AbortHandle = Handle;
  spawn = λ m k dur w. (
    record { next = suc w.next; alive = λ h. same h (spawned m k w) || w.alive h },
    spawned m k w,
  );
  abort = λ g w. record w { alive = λ h. not (same h g) && w.alive h };
}

abbrev runtime-Tasks : Tasks runtime
runtime-Tasks = record {
  live = λ w h. w.alive h;
  key = λ h. h.of;
  spawn_key = λ m k dur w. refl;
  spawn_new = λ m k dur w. ground (arith, same_iff (spawned m k w) (spawned m k w));
  spawn_live = λ m k dur w h alive. ground (arith, same_iff h (spawned m k w));
  abort_live = λ g h w. ground (arith, same_iff h g);
}

abbrev idle : TokioScheduler runtime
idle = record { poisoned = false; handles = []; world = record { next = 0; alive = λ h. false } }

idle-Tracked : Tracked runtime runtime-Tasks idle
idle-Tracked = record {
  kept = λ h alive. absurd (false-ne-true alive);
  keyed = λ k h has. absurd (nothing k h has);
}
  where
    false-ne-true : false ≡ true → ⊥
    false-ne-true e = ground arith

    nothing : (k : Key) (h : Handle) → lookup runtime k [] ≢ some h
    nothing k h e = unfold lookup in ground arith

abbrev armed : TokioScheduler runtime
armed = arm runtime station TimerKind.held 60 idle

armed-Tracked : Tracked runtime runtime-Tasks armed
armed-Tracked = arm-Tracked runtime runtime-Tasks station TimerKind.held 60 idle refl idle-Tracked

still_usable : armed.poisoned ≡ false
unfolding arm
still_usable = refl

cancel_all-live_example :
    Tracked runtime runtime-Tasks (cancel_all runtime station armed)
    × (((cancel_all runtime station armed).world.alive (spawned station TimerKind.held idle.world)
          ≡ true)
        ↔ ((armed.world.alive (spawned station TimerKind.held idle.world) ≡ true)
            × (station ≢ station)))
unfolding arm cancel_all
cancel_all-live_example =
    cancel_all-live runtime runtime-Tasks station armed (spawned station TimerKind.held idle.world)
      still_usable armed-Tracked
