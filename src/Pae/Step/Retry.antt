-- ===== src/Pae/Step/Retry.antt =====
-- crates/pae/src/session.rs: the bound on the identity requests of one attempt.
use Prim.Native.Nat.{max}
use usg_authenticator.Prelude.{ℕ, zero, suc, ◌+◌, ◌≤◌, ◌<◌, ◌≡◌, ◌≢◌, List, [], ◌∷◌, arith}
use usg_authenticator.Pae.Config.{TimerKind, PaeConfig}
use usg_authenticator.Pae.Event.{Event, timer}
use usg_authenticator.Pae.Session.{State, connecting, PortSession}
use usg_authenticator.Pae.Step.{step, run}

State-discrete : Discrete State
State-discrete = hlevel

-- `n` expiries of `tx-period` with nothing from the supplicant.
abbrev pub silences : ℕ → List Event
silences zero = []
silences (suc n) = timer TimerKind.tx_period ∷ silences n

-- A session that does not solicit stays so under `tx-period` expiries.
quiet-step :
    (s : PortSession) (cfg : PaeConfig)
    → s.state ≢ connecting
    → (step s (timer TimerKind.tx_period) cfg).0.state ≢ connecting
unfolding step
quiet-step s cfg q = ground arith

quiet-run :
    (n : ℕ) (s : PortSession) (cfg : PaeConfig)
    → s.state ≢ connecting
    → (run s (silences n) cfg).0.state ≢ connecting
unfolding run
quiet-run zero s cfg q = q
quiet-run (suc n) s cfg q =
    quiet-run n (step s (timer TimerKind.tx_period) cfg).0 cfg (quiet-step s cfg q)

-- Each expiry sends one more request, or gives the supplicant up.
silence-step :
    (s : PortSession) (cfg : PaeConfig)
    → let t = (step s (timer TimerKind.tx_period) cfg).0 in
      t.state ≡ connecting → (t.tx_count ≡ s.tx_count + 1) × (s.tx_count < cfg.max_reauth_req)
unfolding step
silence-step s cfg c = ground arith

-- Once tx-period has expired as often as max_reauth_req leaves room for, and once more, a session
-- no longer solicits, whatever state it was in.
pub silences_give_up :
    (n : ℕ) (s : PortSession) (cfg : PaeConfig)
    → cfg.max_reauth_req ≤ s.tx_count + n
    → (run s (silences (suc n)) cfg).0.state ≢ connecting
unfolding run
silences_give_up zero s cfg h = λ c. ground (arith, silence-step s cfg c)
silences_give_up (suc n) s cfg h =
    let t = (step s (timer TimerKind.tx_period) cfg).0 in
    elim (State-discrete t.state connecting) [
      | yes c ↦ silences_give_up n t cfg (omega (arith, silence-step s cfg c))
      | no q ↦ quiet-run (suc n) t cfg q
    ]

-- No event takes the count of identity requests above the larger of 1 and max_reauth_req, if it
-- was not above.
pub tx_count_bounded :
    (s : PortSession) (e : Event) (cfg : PaeConfig)
    → s.tx_count ≤ max 1 cfg.max_reauth_req
    → (step s e cfg).0.tx_count ≤ max 1 cfg.max_reauth_req
unfolding step
tx_count_bounded s e cfg h = ground arith

eap_id_octet :
    (s : PortSession) (e : Event) (cfg : PaeConfig) → s.eap_id < 256 → (step s e cfg).0.eap_id < 256
unfolding step
eap_id_octet s e cfg h = ground arith

-- Through any events, the count of identity requests of a session stays within the larger of 1 and
-- max_reauth_req, so that its saturating addition never saturates, and its EAP identifier stays an
-- octet, if they were.
pub run_bounded :
    (es : List Event) (s : PortSession) (cfg : PaeConfig)
    → s.tx_count ≤ max 1 cfg.max_reauth_req
    → s.eap_id < 256
    → let t = (run s es cfg).0 in (t.tx_count ≤ max 1 cfg.max_reauth_req) × (t.eap_id < 256)
unfolding run
run_bounded [] s cfg h k = (h, k)
run_bounded (e ∷ es) s cfg h k =
    run_bounded es (step s e cfg).0 cfg (tx_count_bounded s e cfg h) (eap_id_octet s e cfg k)
